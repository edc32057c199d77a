-- ===== src/Fusion/Accumulator.antt =====
-- The accumulator's state and operations. Capacity hints change nothing and are left out, as are the
-- statistics that no code writes and the dropout window, which no code reads. A read or a write outside
-- the memory at hand is a fault (`none`).
use caldera_sandbox.Base.{
  ℕ, zero, suc, ◌+◌, ◌-◌, ◌*◌, ◌%◌, Bool, true, false, not, ◌&&◌, ◌||◌, Option, none, some, List,
  [], ◌∷◌, ◌++◌, leb, if◌then◌else◌, length, replicate, take, drop, ◌>>=◌,
}
use caldera_sandbox.Base.Int.{int_index, ℤ, pos, pos_part, ltb_ℤ, to_u64}
use caldera_sandbox.Base.Words.{u64_mod, inc32}
use caldera_sandbox.Base.Float.{Float}

-- A pointer is null or has values behind it; a sensor is known by a number.
pub record FusionInputLayer (F : Type 0) : Type 0 where
  pub sensor_id : ℕ
  pub heights : Option (List F)
  pub confidence : Option (List F)
  pub width : ℤ
  pub height : ℤ

pub record LayerEntry : Type 0 where
  pub sensor_id : ℕ
  pub offset : ℕ
  pub conf_offset : ℕ
  pub has_confidence : Bool

pub record FusionStats : Type 0 where
  pub layer_count : ℕ
  pub layer_valid_counts : List ℕ

pub record FusionAccumulator (F : Type 0) : Type 0 where
  pub frame_id : ℕ
  pub width : ℤ
  pub height : ℤ
  pub layers : List LayerEntry
  pub heights_storage : List F
  pub confidence_storage : List F
  pub frame_pixel_count : ℕ
  pub stats : FusionStats
  -- sensors with the frame in which they were last seen, the latest entry first
  pub last_seen_frame_id : List (ℕ × ℕ)

abbrev pub same_ℤ : ℤ → ℤ → Bool
same_ℤ a b = not (ltb_ℤ a b) && not (ltb_ℤ b a)

-- `n` values from `off` on.
unfoldable pub span : {F : Type 0} → ℕ → ℕ → List F → Option (List F)
span off n xs = if leb (off + n) (length xs) then some (take n (drop off xs)) else none

-- `std::copy` of `ys` to the values from `off` on.
unfoldable pub place : {F : Type 0} → ℕ → List F → List F → List F
place zero ys xs = ys ++ drop (length ys) xs
place (suc off) ys [] = []
place (suc off) ys (x ∷ xs) = x ∷ place off ys xs

unfoldable pub copy_to : {F : Type 0} → ℕ → List F → List F → Option (List F)
unfolding place
copy_to off ys xs = if leb (off + length ys) (length xs) then some (place off ys xs) else none

module _ {F : Type 0} where
  abbrev pub fresh : FusionAccumulator F
  fresh = record {
    frame_id = 0;
    width = pos 0;
    height = pos 0;
    layers = [];
    heights_storage = [];
    confidence_storage = [];
    frame_pixel_count = 0;
    stats = record { layer_count = 0; layer_valid_counts = [] };
    last_seen_frame_id = [];
  }

  unfoldable pub begin_frame : ℕ → ℤ → ℤ → FusionAccumulator F → FusionAccumulator F
  begin_frame id w h a = record a {
    frame_id = id;
    width = w;
    height = h;
    layers = [];
    frame_pixel_count = to_u64 w * to_u64 h % u64_mod;
    stats = record { layer_count = 0; layer_valid_counts = [] };
    heights_storage = [];
    confidence_storage = [];
  }

  -- Two maps row by row, whose indices are `int`s: the rows from `y` on, of which `left` are to come. The maps stand in `storage`
  -- at `o₁` and at `o₂`.
  unfoldable pub fuse_rows : List F → ℕ → ℕ → ℕ → ℕ → ℕ → List F → Option (List F)
  unfolding span copy_to
  fuse_rows storage o₁ o₂ w y zero out = some out
  fuse_rows storage o₁ o₂ w y (suc left) out = int_index ((y + 1) * w) >>= λ _.
      int_index (y * 2 * w) >>= λ _. span (o₁ + y * w) w storage >>= λ row₁.
      span (o₂ + y * w) w storage >>= λ row₂. copy_to (y * 2 * w) row₁ out >>= λ out₁.
      copy_to (y * 2 * w + w) row₂ out₁ >>= fuse_rows storage o₁ o₂ w (y + 1) left

  -- The values of the confidence pointer, if there is one.
  unfoldable pub read_confidence : ℕ → Option (List F) → Option (Option (List F))
  unfolding span
  read_confidence n none = some none
  read_confidence n (some c) = span 0 n c >>= λ c'. some (some c')

module _ {F : Type 0} ⦃f : Float F⦄ where
  open f use {ratio, is_finite}

  -- `std::vector::resize`.
  unfoldable pub resize_map : ℕ → List F → List F
  resize_map n xs = take n xs ++ replicate (n - length xs) (ratio 0 1)

  -- `++validCount` for each finite value.
  unfoldable pub count_valid : List F → ℕ → ℕ
  count_valid [] count = count
  count_valid (x ∷ xs) count = count_valid xs (if is_finite x then inc32 count else count)

  unfoldable pub append_layer :
      ℕ → List F → Option (List F) → FusionAccumulator F → FusionAccumulator F
  unfolding count_valid
  append_layer id heights confidence a =
      let entry : LayerEntry = record {
        sensor_id = id;
        offset = length a.heights_storage;
        conf_offset = elim confidence [ none ↦ 0 | some _ ↦ length a.confidence_storage ];
        has_confidence = elim confidence [ none ↦ false | some _ ↦ true ];
      } in
      record a {
        layers = a.layers ++ (entry ∷ []);
        heights_storage = a.heights_storage ++ heights;
        confidence_storage = a.confidence_storage ++ (elim confidence [ none ↦ [] | some c ↦ c ]);
        stats = record {
          layer_count = length a.layers + 1;
          layer_valid_counts = a.stats.layer_valid_counts ++ (count_valid heights 0 ∷ []);
        };
        last_seen_frame_id = (id, a.frame_id) ∷ a.last_seen_frame_id;
      }

  unfoldable pub add_layer : FusionInputLayer F → FusionAccumulator F → Option (FusionAccumulator F)
  unfolding append_layer span read_confidence
  add_layer layer a = elim layer.heights [
    | none ↦ some a
    | some heights ↦
        if same_ℤ layer.width a.width && same_ℤ layer.height a.height
        then (span 0 a.frame_pixel_count heights >>= λ hs.
            read_confidence a.frame_pixel_count layer.confidence >>= λ cs.
            some (append_layer layer.sensor_id hs cs a))
        else some a
  ]

  -- `outHeightMap` before and after; `outConfidence`, if given, is cleared in every case.
  unfoldable pub fuse_layers : List LayerEntry → List F → FusionAccumulator F → Option (List F)
  unfolding fuse_rows span resize_map
  fuse_layers [] out a = some []
  fuse_layers (l ∷ []) out a = span l.offset a.frame_pixel_count a.heights_storage
  fuse_layers (l₁ ∷ l₂ ∷ []) out a =
      let n = to_u64 a.width * to_u64 a.height % u64_mod in
      if not (ltb_ℤ (pos 0) a.width) || not (ltb_ℤ (pos 0) a.height)
      then some []
      else fuse_rows a.heights_storage l₁.offset l₂.offset (pos_part a.width) 0 (pos_part a.height)
          (resize_map (n * 2 % u64_mod) out)
  fuse_layers (l₁ ∷ l₂ ∷ l₃ ∷ ls) out a = some []

  unfoldable pub fuse :
      List F → Option (List F) → FusionAccumulator F → Option (List F × Option (List F))
  unfolding fuse_layers
  fuse out confidence a = fuse_layers a.layers out a >>= λ heights.
      some (heights, elim confidence [ none ↦ none | some _ ↦ some [] ])
