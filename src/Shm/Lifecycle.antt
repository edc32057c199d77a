-- ===== src/Shm/Lifecycle.antt =====
-- The producer over its life: construction, start, frames and stop keep it well formed.
use native.Mathlib.Nat.{mul-le-mul}
use caldera_sandbox.Base.{
  ℕ, zero, suc, ◌+◌, ◌*◌, ◌%◌, ◌≤◌, ◌<◌, ◌≡◌, refl, Option, none, some, Bool, true, false, List,
  arith, length,
}
use caldera_sandbox.Base.Int.{pos_part}
use caldera_sandbox.Base.Words.{u32_mod, u64_mod}
use caldera_sandbox.Base.Float.{Float}
use caldera_sandbox.World.{WorldFrame, HeightMap}
use caldera_sandbox.Shm.Segment.{Segment}
use caldera_sandbox.Shm.Memory.{length-blit}
use caldera_sandbox.Shm.Server.{
  Server, Config, Attempt, open_fails, truncate_fails, map_fails, maps, capacity, hard_max_width,
  hard_max_height, create, clamp_config, exceeds, start, stop, choose_checksum, init_header,
}
use caldera_sandbox.Shm.Send.{write_index, account, publish}
use caldera_sandbox.Shm.Publish.{published, run_stores-publish_stores}
use caldera_sandbox.Shm.Atomic.{IsValid, slot_inside}

-- The producer is mapped exactly while it runs, and its segment is valid.
abbrev pub IsLive : ℕ → Bool → Option Segment → Type 0
IsLive room true (some m) = IsValid room m
IsLive room true none = ⊥
IsLive room false (some m) = ⊥
IsLive room false none = Unit

pub record IsWithin (c : Config) : Type 0 where
  pub width : c.max_width ≤ hard_max_width
  pub height : c.max_height ≤ hard_max_height

pub record IsReady {D : Type 0} (s : Server D) : Type 0 where
  pub within : IsWithin s.config
  pub live : IsLive (capacity s.config) s.running s.mapping
  pub counted :
      s.stats.frames_attempted
      ≡ (s.stats.frames_published + s.stats.frames_dropped_capacity) % u64_mod

-- The operating system maps as many bytes as it was asked for.
abbrev pub HasSize : ℕ → Attempt → Type 0
HasSize room (maps m) = length m.words ≡ room + room
HasSize room _ = Unit

-- `HeightMap` promises `width * height` values.
abbrev pub IsWellFormed : HeightMap → Type 0
IsWellFormed hm = length hm.data_words ≡ pos_part hm.width * pos_part hm.height

pub capacity-lt : (c : Config) → IsWithin c → capacity c < u32_mod
capacity-lt c h = omega (arith, mul-le-mul h.width h.height)

init-IsValid :
    (room : ℕ) (ws : List ℕ)
    → room < u32_mod
    → length ws ≡ room + room
    → IsValid room (record { header = init_header; words = ws })
unfolding init_header
init-IsValid room ws h e = omega arith

published-IsValid :
    (room i : ℕ) (frame : WorldFrame) (cs : ℕ) (m : Segment)
    → i ≤ 1
    → length frame.height_map.data_words ≤ room
    → IsValid room m
    → IsValid room (published room i frame cs m)
published-IsValid room zero frame cs m h fits v =
    omega (arith, length-blit (zero * room) frame.height_map.data_words m.words)
published-IsValid room (suc i) frame cs m h fits v =
    omega (arith, length-blit (suc i * room) frame.height_map.data_words m.words)

-- A well-formed frame that is not dropped fits a buffer.
pub fits_of_not_exceeds :
    (c : Config) (hm : HeightMap)
    → IsWellFormed hm
    → exceeds c hm ≡ false
    → length hm.data_words ≤ capacity c
unfolding exceeds
fits_of_not_exceeds c hm w e =
    let hw : pos_part hm.width ≤ c.max_width = ground arith in
    let hh : pos_part hm.height ≤ c.max_height = ground arith in omega (arith, mul-le-mul hw hh)

module _ {D : Type 0} ⦃d : Float D⦄ where
  pub create-IsReady : (c : Config) → IsReady (create {D = D} c)
  unfolding create clamp_config
  create-IsReady c = ground arith

  -- If the producer is well formed and a mapping has the size that was asked for, `start` leaves the
  -- producer well formed, whether the operating system maps the segment or fails.
  pub start-IsReady :
      (os : Attempt) (s : Server D)
      → HasSize (capacity s.config) os
      → IsReady s
      → IsReady (start os s)
  unfolding start
  start-IsReady open_fails s h v = ground arith
  start-IsReady truncate_fails s h v = ground arith
  start-IsReady map_fails s h v = ground arith
  start-IsReady (maps m) s h v =
      ground (arith, init-IsValid (capacity s.config) m.words (capacity-lt s.config v.within))

  pub stop-IsReady : (s : Server D) → IsReady s → IsReady (stop s)
  unfolding stop
  stop-IsReady s v = ground arith

  -- One publication to a valid segment, of a frame that fits.
  pub publish-IsValid :
      (now₁ now₂ : ℕ) (frame : WorldFrame) (m : Segment) (s : Server D)
      → IsValid (capacity s.config) m
      → length frame.height_map.data_words ≤ capacity s.config
      → let (cs, last) = choose_checksum s frame now₁ in
        let m' = published (capacity s.config) (write_index m) frame cs m in
        (publish now₁ now₂ frame m s ≡ some (account last now₂ frame m' s))
        × IsValid (capacity s.config) m'
  unfolding publish
  publish-IsValid now₁ now₂ frame m s ok fits =
      let room = capacity s.config in
      let i = write_index m in
      let cs = (choose_checksum s frame now₁).0 in
      let hi : i ≤ 1 = omega (arith, ok.active) in
      let inside = slot_inside room i (length frame.height_map.data_words) hi fits in
      (
        rw
            (
              run_stores-publish_stores room i frame cs m hi (omega (arith, ok.size, inside)),
              publish,
            )
            refl,
        published-IsValid room i frame cs m hi fits ok,
      )
