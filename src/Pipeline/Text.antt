-- ===== src/Pipeline/Text.antt =====
-- The helpers of the parser. A character is its code; `std::isspace`, `std::isalnum` and `std::tolower` are
-- arguments.
use caldera_sandbox.Base.{
  ℕ, ◌+◌, ◌-◌, Bool, ◌&&◌, Option, none, some, List, [], ◌∷◌, ◌++◌, ◌==◌, if◌then◌else◌,
}
use caldera_sandbox.Base.Text.{is_nil}

abbrev pub left_paren : ℕ
left_paren = 40

abbrev pub right_paren : ℕ
right_paren = 41

abbrev pub comma : ℕ
comma = 44

abbrev pub dash : ℕ
dash = 45

abbrev pub equals : ℕ
equals = 61

abbrev pub underscore : ℕ
underscore = 95

-- The state of a scan for the commas outside parentheses.
pub record Scan : Type 0 where
  pub depth : ℕ
  pub token : List ℕ
  pub kept : List (List ℕ)

module _ (is_space : ℕ → Bool) where
  unfoldable pub ltrim : List ℕ → List ℕ
  ltrim [] = []
  ltrim (c ∷ s) = let rest = ltrim s in if is_space c then rest else c ∷ s

  unfoldable pub rtrim : List ℕ → List ℕ
  rtrim [] = []
  rtrim (c ∷ s) = let rest = rtrim s in if is_space c && is_nil rest then [] else c ∷ rest

  unfoldable pub trim : List ℕ → List ℕ
  unfolding ltrim rtrim
  trim s = rtrim (ltrim s)

  -- A token that is not blank is kept.
  unfoldable pub keep_token : List ℕ → List (List ℕ) → List (List ℕ)
  unfolding trim
  keep_token token kept = let t = trim token in if is_nil t then kept else kept ++ t ∷ []

  unfoldable pub scan_char : ℕ → Scan → Scan
  unfolding keep_token
  scan_char c s =
      if c == left_paren
      then record s { depth = s.depth + 1; token = s.token ++ c ∷ [] }
      else (if c == right_paren
          then record s { depth = s.depth - 1; token = s.token ++ c ∷ [] }
          else (if (c == comma) && (s.depth == 0)
              then record s { token = []; kept = keep_token s.token s.kept }
              else record s { token = s.token ++ c ∷ [] }))

  unfoldable pub scan : List ℕ → Scan → Scan
  unfolding scan_char
  scan [] s = s
  scan (c ∷ text) s = scan text (scan_char c s)

  unfoldable pub finish_scan : Scan → List (List ℕ)
  unfolding keep_token
  finish_scan s = keep_token s.token s.kept

  unfoldable pub split_commas : List ℕ → List (List ℕ)
  unfolding scan finish_scan
  split_commas text = finish_scan (scan text (record { depth = 0; token = []; kept = [] }))

-- What is before and after the first `c`.
unfoldable pub split_first : ℕ → List ℕ → Option (List ℕ × List ℕ)
split_first c [] = none
split_first c (x ∷ s) =
    let rest = split_first c s in
    if x == c
    then some ([], s)
    else elim rest [ none ↦ none | some (before, after) ↦ some (x ∷ before, after) ]

-- What is before and after the last `c`.
unfoldable pub split_last : ℕ → List ℕ → Option (List ℕ × List ℕ)
split_last c [] = none
split_last c (x ∷ s) = elim (split_last c s) [
  | some (before, after) ↦ some (x ∷ before, after)
  | none ↦ if x == c then some ([], s) else none
]
