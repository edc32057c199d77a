-- ===== src/Fusion/Rows.antt =====
-- Two maps side by side: the loop over the rows makes the map that has each row of the first
-- followed by that row of the second.
use caldera_sandbox.Base.{
  ℕ, zero, suc, ◌+◌, ◌*◌, ◌≤◌, ◌<◌, ◌≡◌, refl, ap, sym, ◌∙◌, some, List, [], ◌∷◌, ◌++◌, arith,
  length, take, drop, length-append, length-take, length-drop, append_assoc, le→leb, drop-drop,
}
use caldera_sandbox.Base.Int.{int_limit, int_index-some}
use caldera_sandbox.Fusion.Accumulator.{span, place, copy_to, fuse_rows}

module _ {F : Type 0} where
  -- `n` rows of width `w` of two maps, row by row.
  abbrev pub beside : ℕ → ℕ → List F → List F → List F
  beside w zero xs ys = []
  beside w (suc n) xs ys = take w xs ++ (take w ys ++ beside w n (drop w xs) (drop w ys))

  pub span-inside :
      (off n : ℕ) (xs : List F) → off + n ≤ length xs → span off n xs ≡ some (take n (drop off xs))
  unfolding span
  span-inside off n xs h = rw (le→leb (off + n) (length xs) h) refl

  place-append :
      (ps ys qs : List F) → place (length ps) ys (ps ++ qs) ≡ ps ++ (ys ++ drop (length ys) qs)
  unfolding place
  place-append [] ys qs = refl
  place-append (p ∷ ps) ys qs = ap (◌∷◌ p) (place-append ps ys qs)

  copy_to-append :
      (off : ℕ) (ps ys qs : List F)
      → off ≡ length ps
      → length ys ≤ length qs
      → copy_to off ys (ps ++ qs) ≡ some (ps ++ (ys ++ drop (length ys) qs))
  unfolding copy_to
  copy_to-append off ps ys qs e h =
      ap (λ k. copy_to k ys (ps ++ qs)) e
      ∙ rw
          (
            le→leb (length ps + length ys) (length (ps ++ qs)) (omega (arith, length-append ps qs)),
            place-append ps ys qs,
          )
          refl

  fuse_rows-step :
      (storage : List F) (o₁ o₂ w y left : ℕ) (out r₁ r₂ out₁ out₂ : List F)
      → span (o₁ + y * w) w storage ≡ some r₁
      → span (o₂ + y * w) w storage ≡ some r₂
      → copy_to (y * 2 * w) r₁ out ≡ some out₁
      → copy_to (y * 2 * w + w) r₂ out₁ ≡ some out₂
      → (y + 1) * w < int_limit
      → y * 2 * w < int_limit
      → fuse_rows storage o₁ o₂ w y (suc left) out ≡ fuse_rows storage o₁ o₂ w (y + 1) left out₂
  unfolding fuse_rows
  fuse_rows-step storage o₁ o₂ w y left out r₁ r₂ out₁ out₂ e₁ e₂ e₃ e₄ row place =
      rw (int_index-some ((y + 1) * w) row, int_index-some (y * 2 * w) place, e₁, e₂, e₃, e₄) refl

  drop-row : (xs : List F) (o y w : ℕ) → drop (o + (y + 1) * w) xs ≡ drop w (drop (o + y * w) xs)
  drop-row xs o y w =
      ap (λ k. drop k xs) {x = o + (y + 1) * w} {y = o + y * w + w} (omega arith)
      ∙ sym (drop-drop w (o + y * w) xs)

  -- The rows from `y` on, in a buffer of which the rows before are done, with both maps inside the
  -- storage.
  pub fuse_rows-beside :
      (storage : List F) (o₁ o₂ w y left : ℕ) (ps qs : List F)
      → o₁ + (y + left) * w ≤ length storage
      → o₂ + (y + left) * w ≤ length storage
      → length ps ≡ y * 2 * w
      → length qs ≡ left * 2 * w
      → (y + left) * 2 * w < int_limit
      → fuse_rows storage o₁ o₂ w y left (ps ++ qs)
        ≡ some (ps ++ beside w left (drop (o₁ + y * w) storage) (drop (o₂ + y * w) storage))
  unfolding fuse_rows
  fuse_rows-beside storage o₁ o₂ w y zero ps [] h₁ h₂ hp hq small = refl
  fuse_rows-beside storage o₁ o₂ w y zero ps (q ∷ qs) h₁ h₂ hp hq small = absurd (omega arith)
  fuse_rows-beside storage o₁ o₂ w y (suc left) ps qs h₁ h₂ hp hq small =
      let a = drop (o₁ + y * w) storage in
      let b = drop (o₂ + y * w) storage in
      let len_a : length (take w a) ≡ w =
        omega (arith, length-take w a, length-drop (o₁ + y * w) storage) in
      let len_b : length (take w b) ≡ w =
        omega (arith, length-take w b, length-drop (o₂ + y * w) storage) in
      let below : suc left * 2 * w ≡ w + (w + left * 2 * w) = omega arith in
      let len_q : length (drop w qs) ≡ w + left * 2 * w = omega (arith, length-drop w qs, below) in
      let first =
        copy_to-append (y * 2 * w) ps (take w a) qs (sym hp) (omega (arith, len_a, below)) in
      let second =
        copy_to-append (y * 2 * w + w) (ps ++ take w a) (take w b) (drop w qs)
          (omega (arith, length-append ps (take w a), len_a)) (omega (arith, len_b, len_q)) in
      let done = (ps ++ take w a) ++ take w b in
      let rest = drop w (drop w qs) in
      let onward =
        fuse_rows-beside storage o₁ o₂ w (y + 1) left done rest (omega arith) (omega arith)
          (omega (
            arith,
            length-append (ps ++ take w a) (take w b),
            length-append ps (take w a),
            len_a,
            len_b,
          ))
          (omega (arith, len_q, length-drop w (drop w qs))) (omega arith) in
      fuse_rows-step storage o₁ o₂ w y left (ps ++ qs) (take w a) (take w b)
        ((ps ++ take w a) ++ drop w qs) (done ++ rest)
        (span-inside (o₁ + y * w) w storage (omega arith))
        (span-inside (o₂ + y * w) w storage (omega arith))
        (first
          ∙ ap some (
              ap (λ k. ps ++ (take w a ++ drop k qs)) len_a
              ∙ sym (append_assoc ps (take w a) (drop w qs))))
        (second
          ∙ ap some (
              ap (λ k. (ps ++ take w a) ++ (take w b ++ drop k (drop w qs))) len_b
              ∙ sym (append_assoc (ps ++ take w a) (take w b) rest)))
        (omega arith) (omega arith)
      ∙ onward
      ∙ ap some (
          ap (λ m. done ++ m)
            (λ i. beside w left (drop-row storage o₁ y w i) (drop-row storage o₂ y w i))
          ∙ append_assoc (ps ++ take w a) (take w b) _
          ∙ append_assoc ps (take w a) _)
