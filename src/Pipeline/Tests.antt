-- ===== src/Pipeline/Tests.antt =====
-- The parser on a specification of two stages, and on texts that fail.
use caldera_sandbox.Base.{
  ℕ, ◌+◌, ◌≡◌, refl, Bool, ◌&&◌, ◌||◌, [], ◌∷◌, ◌==◌, leb, if◌then◌else◌, All, map,
}
use caldera_sandbox.Pipeline.Parser.{
  parsed, emplace, no_params, failed, unmatched_paren, empty_key_or_value, parse_pipeline_spec,
  is_ident_char,
}
use caldera_sandbox.Pipeline.Tokens.{joined}
use caldera_sandbox.Pipeline.Printed.{Written, IsPlain, IsName, IsParam, IsSpec, print_stage}
use caldera_sandbox.Pipeline.Reread.{meaning, parse_pipeline_spec-printed}

abbrev is_space : ℕ → Bool
is_space c = c == 32

abbrev is_alnum : ℕ → Bool
is_alnum c = (leb 48 c && leb c 57) || (leb 65 c && leb c 90) || (leb 97 c && leb c 122)

abbrev to_lower : ℕ → ℕ
to_lower c = if leb 65 c && leb c 90 then c + 32 else c

-- `a(b=-,-=a)`.
abbrev stage_a : Written
stage_a = record { name = 97 ∷ []; params = (98 ∷ [], 45 ∷ []) ∷ (45 ∷ [], 97 ∷ []) ∷ [] }

-- `b-`.
abbrev stage_b : Written
stage_b = record { name = 98 ∷ 45 ∷ []; params = [] }

-- ` A ( = 3 )`.
blank_key-fails :
    parse_pipeline_spec is_space is_alnum to_lower
      (32 ∷ 65 ∷ 32 ∷ 40 ∷ 32 ∷ 61 ∷ 32 ∷ 51 ∷ 32 ∷ 41 ∷ [])
    ≡ failed empty_key_or_value
unfolding parse_pipeline_spec
blank_key-fails = refl

-- ` A ( K = 3 )`.
key-parsed :
    parse_pipeline_spec is_space is_alnum to_lower
      (32 ∷ 65 ∷ 32 ∷ 40 ∷ 75 ∷ 32 ∷ 61 ∷ 32 ∷ 51 ∷ 32 ∷ 41 ∷ [])
    ≡ parsed (record { name = 97 ∷ []; params = emplace (107 ∷ []) (51 ∷ []) no_params } ∷ [])
unfolding parse_pipeline_spec
key-parsed = refl

-- `a(`.
open-fails : parse_pipeline_spec is_space is_alnum to_lower (97 ∷ 40 ∷ []) ≡ failed unmatched_paren
unfolding parse_pipeline_spec
open-fails = refl

letter_a-IsPlain : IsPlain is_space is_alnum to_lower 97
unfolding is_ident_char
letter_a-IsPlain = record {
  text = record {
    no_space = refl;
    inner = record { no_left = refl; no_right = refl };
    no_comma = refl;
  };
  ident = refl;
  lower = refl;
  no_equals = refl;
}

letter_b-IsPlain : IsPlain is_space is_alnum to_lower 98
unfolding is_ident_char
letter_b-IsPlain = record {
  text = record {
    no_space = refl;
    inner = record { no_left = refl; no_right = refl };
    no_comma = refl;
  };
  ident = refl;
  lower = refl;
  no_equals = refl;
}

dash-IsPlain : IsPlain is_space is_alnum to_lower 45
unfolding is_ident_char
dash-IsPlain = record {
  text = record {
    no_space = refl;
    inner = record { no_left = refl; no_right = refl };
    no_comma = refl;
  };
  ident = refl;
  lower = refl;
  no_equals = refl;
}

one-IsName :
    {c : ℕ} → IsPlain is_space is_alnum to_lower c → IsName is_space is_alnum to_lower (c ∷ [])
one-IsName ok = record { some_char = refl; plain = (ok, tt) }

one-IsParam :
    {k v : ℕ}
    → IsPlain is_space is_alnum to_lower k
    → IsPlain is_space is_alnum to_lower v
    → IsParam is_space is_alnum to_lower (k ∷ [], v ∷ [])
one-IsParam key value = record { key = one-IsName key; some_char = refl; value = (value.text, tt) }

stages-IsSpec : All (IsSpec is_space is_alnum to_lower) (stage_a ∷ stage_b ∷ [])
stages-IsSpec = (
  record {
    name_ok = one-IsName letter_a-IsPlain;
    params_ok = (
      one-IsParam letter_b-IsPlain dash-IsPlain,
      (one-IsParam dash-IsPlain letter_a-IsPlain, tt),
    );
  },
  (
    record {
      name_ok = record { some_char = refl; plain = (letter_b-IsPlain, (dash-IsPlain, tt)) };
      params_ok = tt;
    },
    tt,
  ),
)

parse_pipeline_spec-printed_example :
    parse_pipeline_spec is_space is_alnum to_lower
      (joined (map print_stage (stage_a ∷ stage_b ∷ [])))
    ≡ parsed (map meaning (stage_a ∷ stage_b ∷ []))
parse_pipeline_spec-printed_example =
    parse_pipeline_spec-printed is_space is_alnum to_lower
      (record { equals_seen = refl; right_seen = refl }) stage_a (stage_b ∷ []) stages-IsSpec
