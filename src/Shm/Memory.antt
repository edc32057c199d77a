-- ===== src/Shm/Memory.antt =====
-- The writes of Shm/Segment.antt as memory: what a run of them changes, and what it leaves alone.
use mathlib.Core.Path.{ap₂, fun_ext}
use caldera_sandbox.Base.{
  ℕ, zero, suc, ◌+◌, ◌≤◌, ◌<◌, ◌≡◌, refl, ap, ◌∙◌, ◌⊎◌, inl, inr, Option, none, some, List, [], ◌∷◌,
  ◌++◌, arith, lt→ltb, ◌>>=◌, length, get_or, set, take, drop, length-set, get_or-set_self,
  get_or-set_ne,
}
use caldera_sandbox.Shm.Segment.{Segment, Store, store, run_stores, copy_words, slice}

module _ {ℓ} {A : Type ℓ} where
  drop-set_lt : (o i : ℕ) (v : A) (xs : List A) → i < o → drop o (set xs i v) ≡ drop o xs
  drop-set_lt zero i v xs h = absurd (omega arith)
  drop-set_lt (suc o) i v [] h = refl
  drop-set_lt (suc o) zero v (x ∷ xs) h = refl
  drop-set_lt (suc o) (suc i) v (x ∷ xs) h = drop-set_lt o i v xs (omega arith)

  take-drop-set_ge :
      (n o i : ℕ) (v : A) (xs : List A)
      → o + n ≤ i
      → take n (drop o (set xs i v)) ≡ take n (drop o xs)
  take-drop-set_ge n zero i v [] h = refl
  take-drop-set_ge zero zero i v (x ∷ xs) h = refl
  take-drop-set_ge (suc n) zero zero v (x ∷ xs) h = absurd (omega arith)
  take-drop-set_ge (suc n) zero (suc i) v (x ∷ xs) h =
      ap (◌∷◌ x) (take-drop-set_ge n zero i v xs (omega arith))
  take-drop-set_ge n (suc o) i v [] h = refl
  take-drop-set_ge n (suc o) zero v (x ∷ xs) h = absurd (omega arith)
  take-drop-set_ge n (suc o) (suc i) v (x ∷ xs) h = take-drop-set_ge n o i v xs (omega arith)

  -- A write outside a slice leaves it alone.
  pub slice-set_ne :
      (o n i : ℕ) (v : A) (xs : List A)
      → (i < o) ⊎ (o + n ≤ i)
      → take n (drop o (set xs i v)) ≡ take n (drop o xs)
  slice-set_ne o n i v xs (inl h) = ap (take n) (drop-set_lt o i v xs h)
  slice-set_ne o n i v xs (inr h) = take-drop-set_ge n o i v xs h

  slice-cons :
      (o n : ℕ) (d : A) (xs : List A)
      → o < length xs
      → take (suc n) (drop o xs) ≡ get_or xs o d ∷ take n (drop (suc o) xs)
  slice-cons o n d [] h = absurd (omega arith)
  slice-cons zero n d (x ∷ xs) h = refl
  slice-cons (suc o) n d (x ∷ xs) h = slice-cons o n d xs (omega arith)

-- `memcpy` as a function on the words.
abbrev pub blit : ℕ → List ℕ → List ℕ → List ℕ
blit o [] xs = xs
blit o (w ∷ ws) xs = blit (o + 1) ws (set xs o w)

pub length-blit : (o : ℕ) (ws xs : List ℕ) → length (blit o ws xs) ≡ length xs
length-blit o [] xs = refl
length-blit o (w ∷ ws) xs = length-blit (o + 1) ws (set xs o w) ∙ length-set xs o w

get_or-blit_lt : (o i d : ℕ) (ws xs : List ℕ) → i < o → get_or (blit o ws xs) i d ≡ get_or xs i d
get_or-blit_lt o i d [] xs h = refl
get_or-blit_lt o i d (w ∷ ws) xs h =
    get_or-blit_lt (o + 1) i d ws (set xs o w) (omega arith)
    ∙ get_or-set_ne xs o i w d (omega arith)

-- A slice read back just where it was written is what was written.
pub slice-blit_self :
    (o : ℕ) (ws xs : List ℕ) → o + length ws ≤ length xs → slice o (length ws) (blit o ws xs) ≡ ws
slice-blit_self o [] xs h = refl
slice-blit_self o (w ∷ ws) xs h =
    let e : suc o ≡ o + 1 = omega arith in
    let bound : o + 1 + length ws ≤ length (set xs o w) = omega (arith, length-set {0} xs o w) in
    let rest : take (length ws) (drop (suc o) (blit (o + 1) ws (set xs o w))) ≡ ws =
      rw e (slice-blit_self (o + 1) ws (set xs o w) bound) in
    let inside : o < length (blit (o + 1) ws (set xs o w)) =
      omega (arith, length-blit (o + 1) ws (set xs o w)) in
    let first : get_or (blit (o + 1) ws (set xs o w)) o 0 ≡ w =
      get_or-blit_lt (o + 1) o 0 ws (set xs o w) (omega arith)
      ∙ get_or-set_self xs o w 0 (omega arith) in
    slice-cons o (length ws) 0 (blit (o + 1) ws (set xs o w)) inside ∙ ap₂ ◌∷◌ first rest

>>=_assoc :
    (o : Option Segment) (f g : Segment → Option Segment)
    → (o >>= (λ m. f m >>= g)) ≡ ((o >>= f) >>= g)
>>=_assoc none f g = refl
>>=_assoc (some m) f g = refl

pub run_stores-append :
    (ss ts : List Store) (m : Segment)
    → run_stores (ss ++ ts) m ≡ (run_stores ss m >>= run_stores ts)
unfolding run_stores
run_stores-append [] ts m = refl
run_stores-append (s ∷ ss) ts m =
    ap (λ f. store s m >>= f) (fun_ext (run_stores-append ss ts))
    ∙ >>=_assoc (store s m) (run_stores ss) (run_stores ts)

-- A copy that stays inside the mapping is a `blit`.
pub run_stores-copy_words :
    (o : ℕ) (ws : List ℕ) (m : Segment)
    → o + length ws ≤ length m.words
    → run_stores (copy_words o ws) m ≡ some (record m { words = blit o ws m.words })
unfolding run_stores copy_words
run_stores-copy_words o [] m h = refl
run_stores-copy_words o (w ∷ ws) m h = rw (lt→ltb o (length m.words) (omega arith)) (
    run_stores-copy_words (o + 1) ws (record m { words = set m.words o w })
      (omega (arith, length-set {0} m.words o w)))

-- So the writes after such a copy start from the blitted words.
pub run_stores-copy_append :
    (o : ℕ) (ws : List ℕ) (ts : List Store) (m : Segment)
    → o + length ws ≤ length m.words
    → run_stores (copy_words o ws ++ ts) m ≡ run_stores ts (record m { words = blit o ws m.words })
run_stores-copy_append o ws ts m h =
    rw (run_stores-append (copy_words o ws) ts m, run_stores-copy_words o ws m h) refl
