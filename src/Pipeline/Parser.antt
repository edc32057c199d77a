-- ===== src/Pipeline/Parser.antt =====
-- `parsePipelineSpec`. The text of an error message is its cause.
use caldera_sandbox.Base.{
  ℕ, Bool, true, not, ◌&&◌, ◌||◌, Option, none, some, List, [], ◌∷◌, map, ◌==◌, if◌then◌else◌,
}
use caldera_sandbox.Base.Text.{is_nil, same_text}
use caldera_sandbox.Pipeline.Text.{
  left_paren, right_paren, dash, equals, underscore, trim, split_commas, split_first, split_last,
}

-- An unordered map: the value of each key that has one.
abbrev pub Params : Type 0
Params = List ℕ → Option (List ℕ)

abbrev pub no_params : Params
no_params k = none

pub record StageSpec : Type 0 where
  pub name : List ℕ
  pub params : Params

pub data ParseError : Type 0 where
  empty_spec unmatched_paren missing_identifier invalid_char missing_equals empty_key_or_value :
      ParseError

pub data Parsed {ℓ} (A : Type ℓ) : Type ℓ where
  failed : ParseError → Parsed A
  parsed : A → Parsed A

abbrev pub or_else : Option (List ℕ) → Option (List ℕ) → Option (List ℕ)
or_else none b = b
or_else (some v) b = some v

-- `emplace` keeps the value that is there.
unfoldable pub emplace : List ℕ → List ℕ → Params → Params
unfolding same_text
emplace k v ps k' = if same_text k k' then or_else (ps k') (some v) else ps k'

-- The name and the text between the parentheses of a stage.
unfoldable pub split_stage : List ℕ → Parsed (List ℕ × List ℕ)
unfolding split_first split_last
split_stage text = elim (split_first left_paren text) [
  | none ↦ parsed (text, [])
  | some (head, rest) ↦ elim (split_last right_paren rest) [
    | none ↦ failed unmatched_paren
    | some (block, _) ↦ parsed (head, block)
  ]
]

module _ (is_space is_alnum : ℕ → Bool) (to_lower : ℕ → ℕ) where
  unfoldable pub is_ident_char : ℕ → Bool
  is_ident_char c = is_alnum c || (c == underscore) || (c == dash)

  unfoldable pub all_ident : List ℕ → Bool
  unfolding is_ident_char
  all_ident [] = true
  all_ident (c ∷ s) = is_ident_char c && all_ident s

  unfoldable pub parse_params : List (List ℕ) → Params → Parsed Params
  unfolding split_first trim emplace
  parse_params [] ps = parsed ps
  parse_params (raw ∷ raws) ps = elim (split_first equals raw) [
    | none ↦ failed missing_equals
    | some (key, value) ↦
        let k = trim is_space key in
        let v = trim is_space value in
        let rest = parse_params raws (emplace (map to_lower k) v ps) in
        if is_nil k || is_nil v then failed empty_key_or_value else rest
  ]

  unfoldable pub parse_head : List ℕ → List ℕ → Parsed StageSpec
  unfolding all_ident parse_params split_commas
  parse_head head block =
      if is_nil head
      then failed missing_identifier
      else (if not (all_ident head)
          then failed invalid_char
          else elim (parse_params (split_commas is_space block) no_params) [
            | failed e ↦ failed e
            | parsed ps ↦ parsed (record { name = map to_lower head; params = ps })
          ])

  unfoldable pub parse_stage : List ℕ → Parsed StageSpec
  unfolding split_stage parse_head trim
  parse_stage text = elim (split_stage text) [
    | failed e ↦ failed e
    | parsed (head, block) ↦ parse_head (trim is_space head) block
  ]

  unfoldable pub parse_stages : List (List ℕ) → Parsed (List StageSpec)
  unfolding parse_stage
  parse_stages [] = parsed []
  parse_stages (text ∷ texts) = elim (parse_stage text) [
    | failed e ↦ failed e
    | parsed stage ↦ elim (parse_stages texts) [
      | failed e ↦ failed e
      | parsed stages ↦ parsed (stage ∷ stages)
    ]
  ]

  unfoldable pub parse_pipeline_spec : List ℕ → Parsed (List StageSpec)
  unfolding parse_stages split_commas
  parse_pipeline_spec text =
      let stages = split_commas is_space text in
      if is_nil stages then failed empty_spec else parse_stages stages
