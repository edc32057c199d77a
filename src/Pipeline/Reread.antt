-- ===== src/Pipeline/Reread.antt =====
-- A pipeline that is printed is read back.
use caldera_sandbox.Base.{
  ℕ, ◌≡◌, refl, ap, sym, ◌∙◌, Bool, true, false, Bool-cases, inl, inr, if◌then◌else◌, Option, none,
  some, List, [], ◌∷◌, ◌++◌, map, All, ◌==◌,
}
use caldera_sandbox.Base.Text.{same_text}
use caldera_sandbox.Pipeline.Text.{
  left_paren, right_paren, equals, split_commas, split_first, split_last,
}
use caldera_sandbox.Pipeline.Parser.{
  Params, no_params, or_else, StageSpec, parsed, emplace, split_stage, all_ident, parse_params,
  parse_head, parse_stage, parse_stages, parse_pipeline_spec,
}
use caldera_sandbox.Pipeline.Tokens.{joined, IsText, trim-text, split_commas-joined}
use caldera_sandbox.Pipeline.Printed.{
  Written, print_param, print_stage, print_enclosed, NoBlanks, IsPlain, IsName, IsParam, IsSpec,
  plain-IsText, plain-equals, texts-left, params-IsToken, stages-IsToken,
}

split_first-append :
    (c : ℕ) (s t : List ℕ)
    → All (λ x. (x == c) ≡ false) s
    → (c == c) ≡ true
    → split_first c (s ++ c ∷ t) ≡ some (s, t)
unfolding split_first
split_first-append c [] t other same = rw same refl
split_first-append c (x ∷ s) t (one, other) same =
    rw (one, split_first-append c s t other same) refl

split_first-none : (c : ℕ) (s : List ℕ) → All (λ x. (x == c) ≡ false) s → split_first c s ≡ none
unfolding split_first
split_first-none c [] other = refl
split_first-none c (x ∷ s) (one, other) = rw (one, split_first-none c s other) refl

split_last-last : (c : ℕ) (s : List ℕ) → (c == c) ≡ true → split_last c (s ++ c ∷ []) ≡ some (s, [])
unfolding split_last
split_last-last c [] same = rw same refl
split_last-last c (x ∷ s) same = rw (split_last-last c s same) refl

-- The first value that is written for a key.
abbrev pub lookup : List (List ℕ × List ℕ) → Params
lookup [] k' = none
lookup ((k, v) ∷ ps) k' = if same_text k k' then some v else lookup ps k'

-- What a stage says.
abbrev pub meaning : Written → StageSpec
meaning s = record { name = s.name; params = lookup s.params }

-- The parameters of `m`, and those of the list that it has no value for.
abbrev with_list : Params → List (List ℕ × List ℕ) → Params
with_list m ps k = or_else (m k) (lookup ps k)

or_else-none : (o : Option (List ℕ)) → or_else o none ≡ o
or_else-none none = refl
or_else-none (some v) = refl

or_else-some :
    (o : Option (List ℕ)) (v : List ℕ) (b : Option (List ℕ))
    → or_else (or_else o (some v)) b ≡ or_else o (some v)
or_else-some none v b = refl
or_else-some (some w) v b = refl

with_list-nil : (m : Params) → with_list m [] ≡ m
with_list-nil m = λ i k. or_else-none (m k) i

emplaced_key :
    (k v : List ℕ) (ps : List (List ℕ × List ℕ)) (m : Params) (k' : List ℕ)
    → with_list (emplace k v m) ps k' ≡ with_list m ((k, v) ∷ ps) k'
unfolding emplace
emplaced_key k v ps m k' = elim (Bool-cases (same_text k k')) [
  | inl same ↦ rw same (or_else-some (m k') v (lookup ps k'))
  | inr other ↦ rw other refl
]

with_list-cons :
    (k v : List ℕ) (ps : List (List ℕ × List ℕ)) (m : Params)
    → with_list (emplace k v m) ps ≡ with_list m ((k, v) ∷ ps)
with_list-cons k v ps m = λ i k'. emplaced_key k v ps m k' i

module _ (is_space is_alnum : ℕ → Bool) (to_lower : ℕ → ℕ) where
  all_ident-plain :
      (s : List ℕ)
      → All (IsPlain is_space is_alnum to_lower) s
      → all_ident is_space is_alnum to_lower s ≡ true
  unfolding all_ident
  all_ident-plain [] plain = refl
  all_ident-plain (c ∷ s) (one, plain) = rw (one.ident, all_ident-plain s plain) refl

  map-plain : (s : List ℕ) → All (IsPlain is_space is_alnum to_lower) s → map to_lower s ≡ s
  map-plain [] plain = refl
  map-plain (c ∷ s) (one, plain) = rw (one.lower, map-plain s plain) refl

  parse_params-printed :
      (ps : List (List ℕ × List ℕ)) (m : Params)
      → All (IsParam is_space is_alnum to_lower) ps
      → parse_params is_space is_alnum to_lower (map print_param ps) m ≡ parsed (with_list m ps)
  unfolding parse_params
  parse_params-printed [] m ok = ap parsed (sym (with_list-nil m))
  parse_params-printed ((k, v) ∷ ps) m (one, ok) =
      rw
        (
          parse_params,
          split_first-append equals k v (plain-equals is_space is_alnum to_lower k one.key.plain)
              refl,
          trim-text is_space k (plain-IsText is_space is_alnum to_lower k one.key.plain),
          trim-text is_space v one.value,
          one.key.some_char,
          one.some_char,
          map-plain k one.key.plain,
          parse_params-printed ps (emplace k v m) ok,
        )
        (ap parsed (with_list-cons k v ps m))

  parse_head-printed :
      (name block : List ℕ) (ps : Params)
      → IsName is_space is_alnum to_lower name
      → parse_params is_space is_alnum to_lower (split_commas is_space block) no_params ≡ parsed ps
      → parse_head is_space is_alnum to_lower name block
        ≡ parsed (record { name = name; params = ps })
  unfolding parse_head
  parse_head-printed name block ps ok got =
      rw (parse_head, ok.some_char, all_ident-plain name ok.plain, got, map-plain name ok.plain)
        refl

  split_stage-enclosed :
      (name block : List ℕ)
      → All (IsText is_space) name
      → split_stage (name ++ left_paren ∷ (block ++ right_paren ∷ [])) ≡ parsed (name, block)
  unfolding split_stage
  split_stage-enclosed name block texts =
      rw
        (
          split_stage,
          split_first-append left_paren name (block ++ right_paren ∷ [])
              (texts-left is_space is_alnum to_lower name texts) refl,
          split_last-last right_paren block refl,
        )
        refl

  split_stage-name :
      (name : List ℕ) → All (IsText is_space) name → split_stage name ≡ parsed (name, [])
  unfolding split_stage
  split_stage-name name texts =
      rw
        (
          split_stage,
          split_first-none left_paren name (texts-left is_space is_alnum to_lower name texts),
        )
        refl

  parse_stage-split :
      (text name block : List ℕ)
      → All (IsText is_space) name
      → split_stage text ≡ parsed (name, block)
      → parse_stage is_space is_alnum to_lower text
        ≡ parse_head is_space is_alnum to_lower name block
  unfolding parse_stage
  parse_stage-split text name block texts got =
      rw (parse_stage, got)
        (ap (λ n. parse_head is_space is_alnum to_lower n block) (trim-text is_space name texts))

  parse_stage-printed :
      NoBlanks is_space is_alnum to_lower
      → (name : List ℕ) (ps : List (List ℕ × List ℕ)) → IsName is_space is_alnum to_lower name
      → All (IsParam is_space is_alnum to_lower) ps
      → parse_stage is_space is_alnum to_lower (print_enclosed name ps)
        ≡ parsed (record { name = name; params = lookup ps })
  unfolding split_commas parse_params
  parse_stage-printed seen name [] one ok =
      let texts = plain-IsText is_space is_alnum to_lower name one.plain in
      parse_stage-split name name [] texts (split_stage-name name texts)
      ∙ parse_head-printed name [] no_params one refl
  parse_stage-printed seen name (p ∷ ps) one ok =
      let texts = plain-IsText is_space is_alnum to_lower name one.plain in
      let block = joined (map print_param (p ∷ ps)) in
      parse_stage-split (print_enclosed name (p ∷ ps)) name block texts
        (split_stage-enclosed name block texts)
      ∙ parse_head-printed name block (lookup (p ∷ ps)) one (
          ap (λ t. parse_params is_space is_alnum to_lower t no_params)
            (split_commas-joined is_space (print_param p) (map print_param ps)
              (params-IsToken is_space is_alnum to_lower seen (p ∷ ps) ok))
          ∙ parse_params-printed (p ∷ ps) no_params ok)

  parse_stages-printed :
      NoBlanks is_space is_alnum to_lower
      → (specs : List Written) → All (IsSpec is_space is_alnum to_lower) specs
      → parse_stages is_space is_alnum to_lower (map print_stage specs) ≡ parsed (map meaning specs)
  unfolding parse_stages
  parse_stages-printed seen [] ok = refl
  parse_stages-printed seen (s ∷ specs) (one, ok) =
      rw
        (
          parse_stages,
          parse_stage-printed seen s.name s.params one.name_ok one.params_ok,
          parse_stages-printed seen specs ok,
        )
        refl

  -- When neither an equals sign nor a right parenthesis is a blank, for at least one stage, each with a name
  -- and perhaps parameters, where names and keys have at least one character, all of them
  -- letters, digits, underscores or dashes that the conversion to lower case keeps, and values have at least
  -- one character, and where no character of these is a blank, a parenthesis or a comma, nor one of a name or
  -- key an equals sign: the stages as text, with their parameters in parentheses and commas in between, are
  -- parsed to stages in the same order, with the same names, in which a key has the first value that is written
  -- for it, and no other key has a value.
  pub parse_pipeline_spec-printed :
      NoBlanks is_space is_alnum to_lower
      → (s : Written) (specs : List Written) → All (IsSpec is_space is_alnum to_lower) (s ∷ specs)
      → parse_pipeline_spec is_space is_alnum to_lower (joined (map print_stage (s ∷ specs)))
        ≡ parsed (map meaning (s ∷ specs))
  unfolding parse_pipeline_spec
  parse_pipeline_spec-printed seen s specs ok =
      rw
        (
          parse_pipeline_spec,
          split_commas-joined is_space (print_stage s) (map print_stage specs)
              (stages-IsToken is_space is_alnum to_lower seen (s ∷ specs) ok),
        )
        (parse_stages-printed seen (s ∷ specs) ok)
