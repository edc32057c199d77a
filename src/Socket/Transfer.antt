-- ===== src/Socket/Transfer.antt =====
-- The two loops move every byte, in order.
use caldera_sandbox.Base.{
  ℕ, suc, ◌+◌, ◌-◌, ◌≤◌, ◌≡◌, refl, ap, ◌∙◌, min, Bool, true, false, ◌⊎◌, inl, inr, some, List, [],
  ◌∷◌, ◌++◌, arith, length, take, drop, take-append-drop, length-take, length-drop, append_assoc,
  take-append_le, drop-append_le,
}
use caldera_sandbox.Socket.Stream.{Call, fails, moves, write_all, read_exact}

-- A schedule on which no call fails.
abbrev pub IsSteady : List Call → Type 0
IsSteady [] = Unit
IsSteady (fails ∷ calls) = ⊥
IsSteady (moves k ∷ calls) = IsSteady calls

-- With a call for each byte `writeAll` ends. It then succeeded and sent everything, or it failed
-- and sent a beginning of it.
pub write_all-prefix :
    (calls : List Call) (bytes : List ℕ)
    → length bytes ≤ length calls
    → (ok : Bool) × (sent : List ℕ) × (rest : List Call) × (lost : List ℕ) × (write_all calls bytes
        ≡ some (ok, sent, rest))
      × (sent ++ lost ≡ bytes)
      × ((ok ≡ false) ⊎ (lost ≡ []))
unfolding write_all
write_all-prefix calls [] h = (true, [], calls, [], refl, refl, inr refl)
write_all-prefix [] (b ∷ bytes) h = absurd (omega arith)
write_all-prefix (fails ∷ calls) (b ∷ bytes) h = (false, [], calls, b ∷ bytes, refl, refl, inl refl)
write_all-prefix (moves k ∷ calls) (b ∷ bytes) h =
    let (ok, sent, rest, lost, ran, whole, end) =
      write_all-prefix calls (drop k bytes) (omega (arith, length-drop k bytes)) in
    (
      ok,
      b ∷ (take k bytes ++ sent),
      rest,
      lost,
      rw ran refl,
      ap (◌∷◌ b) (append_assoc (take k bytes) sent lost ∙ rw whole (take-append-drop k bytes)),
      end,
    )

-- On a steady schedule it succeeds, and leaves a call for each byte of what is still to be sent.
pub write_all-IsSteady :
    (calls : List Call) (bytes : List ℕ)
    → IsSteady calls
    → length bytes ≤ length calls
    → (rest : List Call) × (write_all calls bytes ≡ some (true, bytes, rest))
      × IsSteady rest
      × (length calls ≤ length rest + length bytes)
unfolding write_all
write_all-IsSteady calls [] ok h = (calls, refl, ok, omega arith)
write_all-IsSteady [] (b ∷ bytes) ok h = absurd (omega arith)
write_all-IsSteady (fails ∷ calls) (b ∷ bytes) ok h = elim ok [ ]
write_all-IsSteady (moves k ∷ calls) (b ∷ bytes) ok h =
    let (rest, ran, ok', few) =
      write_all-IsSteady calls (drop k bytes) ok (omega (arith, length-drop k bytes)) in
    (rest, rw (ran, take-append-drop k bytes) refl, ok', omega (arith, few, length-drop k bytes))

-- One call of `recv`, when the rest of the loop brings what is left of `xs`.
read_exact-step :
    (calls rest : List Call) (k x : ℕ) (xs ys : List ℕ)
    → read_exact calls (length (drop (min k (length xs)) xs)) (drop (min k (length xs)) xs ++ ys)
      ≡ some (true, drop (min k (length xs)) xs, rest, ys)
    → read_exact (moves k ∷ calls) (suc (length xs)) (x ∷ (xs ++ ys))
      ≡ some (true, x ∷ xs, rest, ys)
unfolding read_exact
read_exact-step calls rest k x xs ys ran =
    let n = min k (length xs) in
    let left : length xs - length (take n xs) ≡ length (drop n xs) =
      omega (arith, length-take n xs, length-drop n xs) in
    rw
      (
        take-append_le n xs ys (omega arith),
        drop-append_le n xs ys (omega arith),
        left,
        ran,
        take-append-drop n xs,
      )
      refl

-- Reading from a stream that is long enough.
pub read_exact-IsSteady :
    (calls : List Call) (xs ys : List ℕ)
    → IsSteady calls
    → length xs ≤ length calls
    → (rest : List Call) × (read_exact calls (length xs) (xs ++ ys) ≡ some (true, xs, rest, ys))
      × IsSteady rest
      × (length calls ≤ length rest + length xs)
unfolding read_exact
read_exact-IsSteady calls [] ys ok h = (calls, refl, ok, omega arith)
read_exact-IsSteady [] (x ∷ xs) ys ok h = absurd (omega arith)
read_exact-IsSteady (fails ∷ calls) (x ∷ xs) ys ok h = elim ok [ ]
read_exact-IsSteady (moves k ∷ calls) (x ∷ xs) ys ok h =
    let n = min k (length xs) in
    let (rest, ran, ok', few) =
      read_exact-IsSteady calls (drop n xs) ys ok (omega (arith, length-drop n xs)) in
    (rest, read_exact-step calls rest k x xs ys ran, ok', omega (arith, few, length-drop n xs))
