-- ===== src/Local/Arrivals.antt =====
-- A line that arrives in time is what the waiting loop returns.
use caldera_sandbox.Base.{
  ℕ, zero, suc, ◌+◌, ◌*◌, ◌≤◌, ◌<◌, ◌≡◌, ◌≢◌, refl, sym, ap, ◌∙◌, Option, some, List, [], ◌∷◌, ◌++◌,
  arith, ltb, lt→ltb, le→not_ltb, ◌==◌, length, length-append, replicate, All, append_assoc,
  append-nil, if◌then◌else◌, if-either, ==_iff, Bool-cases, inl, inr,
}
use caldera_sandbox.Fifo.Pipe.{newline}
use caldera_sandbox.Local.Hello.{
  Read, silent, arrives, Heard, over, goes_on, heard, hello_turn, read_hello,
}

-- Each byte with the number of reads before it that find nothing.
abbrev pub chars : List (ℕ × ℕ) → List ℕ
chars [] = []
chars ((k, c) ∷ bytes) = c ∷ chars bytes

abbrev pub silences : List (ℕ × ℕ) → ℕ
silences [] = 0
silences ((k, c) ∷ bytes) = k + silences bytes

abbrev pub arrivals : List (ℕ × ℕ) → List Read → List Read
arrivals [] rest = rest
arrivals ((k, c) ∷ bytes) rest = replicate k silent ++ arrives c ∷ arrivals bytes rest

read_hello-silent :
    (k : ℕ) (rest : List Read) (timeout w : ℕ) (h : List ℕ)
    → w + 10 * k < timeout
    → read_hello (replicate k silent ++ rest) timeout w h ≡ read_hello rest timeout (w + 10 * k) h
unfolding read_hello hello_turn heard
read_hello-silent zero rest timeout w h early =
    ap (λ n. read_hello rest timeout n h) {x = w} (omega arith)
read_hello-silent (suc k) rest timeout w h early =
    rw (read_hello, lt→ltb w timeout (omega arith))
      (read_hello-silent k rest timeout (w + 10) h (omega arith)
        ∙ ap (λ n. read_hello rest timeout n h) {x = w + 10 + 10 * k} (omega arith))

read_hello-arrives :
    (c : ℕ) (rest : List Read) (timeout w : ℕ) (h : List ℕ)
    → w < timeout
    → c ≢ newline
    → length h < 256
    → read_hello (arrives c ∷ rest) timeout w h ≡ read_hello rest timeout w (h ++ c ∷ [])
unfolding read_hello hello_turn heard
read_hello-arrives c rest timeout w h early plain short = elim (Bool-cases (c == newline)) [
  | inl e ↦ absurd (plain ((==_iff c newline).0 e))
  | inr e ↦
      rw (read_hello, lt→ltb w timeout early, e, le→not_ltb 256 (length h + 1) (omega arith)) refl
]

read_hello-newline :
    (rest : List Read) (timeout w : ℕ) (h : List ℕ)
    → w < timeout
    → read_hello (arrives newline ∷ rest) timeout w h ≡ some h
unfolding read_hello hello_turn heard
read_hello-newline rest timeout w h early = rw (read_hello, lt→ltb w timeout early) refl

pub read_hello-arrivals :
    (bytes : List (ℕ × ℕ)) (k : ℕ) (rest : List Read) (timeout w : ℕ) (h : List ℕ)
    → All (λ c. c ≢ newline) (chars bytes)
    → length h + length bytes ≤ 256
    → w + 10 * (silences bytes + k) < timeout
    → read_hello (arrivals bytes (replicate k silent ++ arrives newline ∷ rest)) timeout w h
      ≡ some (h ++ chars bytes)
read_hello-arrivals [] k rest timeout w h plain short early =
    read_hello-silent k (arrives newline ∷ rest) timeout w h (omega arith)
    ∙ read_hello-newline rest timeout (w + 10 * k) h (omega arith)
    ∙ ap some (sym (append-nil h))
read_hello-arrivals ((j, c) ∷ bytes) k rest timeout w h (one, plain) short early =
    let later = arrivals bytes (replicate k silent ++ arrives newline ∷ rest) in
    read_hello-silent j (arrives c ∷ later) timeout w h (omega arith)
    ∙ read_hello-arrives c later timeout (w + 10 * j) h (omega arith) one (omega arith)
    ∙ read_hello-arrivals bytes k rest timeout (w + 10 * j) (h ++ c ∷ []) plain
        (omega (arith, length-append h (c ∷ []))) (omega arith)
    ∙ ap some (append_assoc h (c ∷ []) (chars bytes))

abbrev Nearer : ℕ → List ℕ → Heard → Type 0
Nearer w h (over g) = Unit
Nearer w h (goes_on w' h') = (length h' ≤ 256) × (w + 10 + 10 * length h ≤ w' + 10 * length h')

heard-Nearer : (r : Read) (w : ℕ) (h : List ℕ) → length h ≤ 256 → Nearer w h (heard r w h)
unfolding heard
heard-Nearer Read.silent w h short = omega arith
heard-Nearer Read.fails w h short = tt
heard-Nearer (arrives c) w h short = ground (arith, length-append h (c ∷ []))

-- The waiting loop ends whatever its reads find, when at most 256 bytes were read before it and there is a
-- read for each 10 ms of the timeout that are left, and one for each byte that is left of 257.
pub read_hello-some :
    (rs : List Read) (timeout w : ℕ) (h : List ℕ)
    → length h ≤ 256
    → timeout + 2570 ≤ 10 * length rs + w + 10 * length h
    → (g : List ℕ) × (read_hello rs timeout w h ≡ some g)
unfolding read_hello hello_turn
read_hello-some [] timeout w h short enough =
    (h, rw (read_hello, le→not_ltb w timeout (omega arith)) refl)
read_hello-some (r ∷ rs) timeout w h short enough =
    elim (if ltb w timeout then heard r w h else over h)
        as (λ x.
          Nearer w h x
          → (g : List ℕ) × (◌≡◌ {A = Option (List ℕ)}
              (elim x [ over h' ↦ some h' | goes_on w' h' ↦ read_hello rs timeout w' h' ])
              (some g))) [
                | over g ↦ λ near. (g, refl)
                | goes_on w' h' ↦ λ near. read_hello-some rs timeout w' h' near.0 (omega arith)
              ]
      (if-either (Nearer w h) (ltb w timeout) (heard r w h) (over h) (heard-Nearer r w h short) tt)
