-- ===== src/Pipeline/Printed.antt =====
-- The text of a pipeline, and the tokens it is made of.
use caldera_sandbox.Base.{
  ℕ, ◌≡◌, refl, ap, sym, ◌∙◌, Bool, true, false, List, [], ◌∷◌, ◌++◌, map, All, append_assoc,
  All-append, ◌==◌,
}
use caldera_sandbox.Base.Text.{is_nil}
use caldera_sandbox.Pipeline.Text.{
  left_paren, right_paren, comma, equals, rtrim, trim, scan, scan_char,
}
use caldera_sandbox.Pipeline.Parser.{is_ident_char}
use caldera_sandbox.Pipeline.Tokens.{
  joined, IsInner, IsText, IsToken, rtrim-last, ltrim-text, scan-text, scan-inner, text-IsToken,
}

abbrev pub print_param : List ℕ × List ℕ → List ℕ
print_param (k, v) = k ++ equals ∷ v

-- `name(k=v,...)`, or the name alone.
abbrev pub print_enclosed : List ℕ → List (List ℕ × List ℕ) → List ℕ
print_enclosed name [] = name
print_enclosed name (p ∷ ps) =
    name ++ left_paren ∷ (joined (map print_param (p ∷ ps)) ++ right_paren ∷ [])

-- A stage as it is written: its parameters stand in an order, and a key may come again.
pub record Written : Type 0 where
  pub name : List ℕ
  pub params : List (List ℕ × List ℕ)

abbrev pub print_stage : Written → List ℕ
print_stage s = print_enclosed s.name s.params

is_nil-append : (s : List ℕ) (c : ℕ) (t : List ℕ) → is_nil (s ++ c ∷ t) ≡ false
is_nil-append [] c t = refl
is_nil-append (x ∷ s) c t = refl

module _ (is_space is_alnum : ℕ → Bool) (to_lower : ℕ → ℕ) where
  -- A character of a name or a key in its canonical form.
  pub record IsPlain (c : ℕ) : Type 0 where
    pub text : IsText is_space c
    pub ident : is_ident_char is_space is_alnum to_lower c ≡ true
    pub lower : to_lower c ≡ c
    pub no_equals : (c == equals) ≡ false

  pub record IsName (name : List ℕ) : Type 0 where
    pub some_char : is_nil name ≡ false
    pub plain : All IsPlain name

  pub record IsParam (p : List ℕ × List ℕ) : Type 0 where
    pub key : IsName p.0
    pub some_char : is_nil p.1 ≡ false
    pub value : All (IsText is_space) p.1

  pub record IsSpec (s : Written) : Type 0 where
    pub name_ok : IsName s.name
    pub params_ok : All IsParam s.params

  -- The characters of the grammar are not blanks.
  pub record NoBlanks : Type 0 where
    pub equals_seen : is_space equals ≡ false
    pub right_seen : is_space right_paren ≡ false

  equals-IsText : NoBlanks → IsText is_space equals
  equals-IsText seen = record {
    no_space = seen.equals_seen;
    inner = record { no_left = refl; no_right = refl };
    no_comma = refl;
  }

  pub plain-IsText : (s : List ℕ) → All IsPlain s → All (IsText is_space) s
  plain-IsText [] plain = tt
  plain-IsText (c ∷ s) (one, plain) = (one.text, plain-IsText s plain)

  pub plain-equals : (s : List ℕ) → All IsPlain s → All (λ x. (x == equals) ≡ false) s
  plain-equals [] plain = tt
  plain-equals (c ∷ s) (one, plain) = (one.no_equals, plain-equals s plain)

  pub texts-left : (s : List ℕ) → All (IsText is_space) s → All (λ x. (x == left_paren) ≡ false) s
  texts-left [] text = tt
  texts-left (c ∷ s) (one, text) = (one.inner.no_left, texts-left s text)

  texts-IsInner : (s : List ℕ) → All (IsText is_space) s → All IsInner s
  texts-IsInner [] text = tt
  texts-IsInner (c ∷ s) (one, text) = (one.inner, texts-IsInner s text)

  param-IsText :
      NoBlanks → (p : List ℕ × List ℕ) → IsParam p → All (IsText is_space) (print_param p)
  param-IsText seen (k, v) ok =
      All-append (IsText is_space) k (equals ∷ v) (plain-IsText k ok.key.plain)
        (equals-IsText seen, ok.value)

  pub params-IsToken :
      NoBlanks
      → (ps : List (List ℕ × List ℕ)) → All IsParam ps
      → All (IsToken is_space) (map print_param ps)
  params-IsToken seen [] ok = tt
  params-IsToken seen ((k, v) ∷ ps) (one, ok) = (
    text-IsToken is_space (k ++ equals ∷ v) (is_nil-append k equals v)
        (param-IsText seen (k, v) one),
    params-IsToken seen ps ok,
  )

  joined-IsInner :
      NoBlanks
      → (ps : List (List ℕ × List ℕ)) → All IsParam ps
      → All IsInner (joined (map print_param ps))
  joined-IsInner seen [] ok = tt
  joined-IsInner seen (p ∷ []) (one, ok) = texts-IsInner (print_param p) (param-IsText seen p one)
  joined-IsInner seen (p ∷ q ∷ ps) (one, ok) =
      All-append IsInner (print_param p) (comma ∷ joined (map print_param (q ∷ ps)))
        (texts-IsInner (print_param p) (param-IsText seen p one))
        (record { no_left = refl; no_right = refl }, joined-IsInner seen (q ∷ ps) ok)

  enclosed-taken :
      (name block rest token : List ℕ) (kept : List (List ℕ))
      → All (IsText is_space) name
      → All IsInner block
      → scan is_space
          ((name ++ left_paren ∷ (block ++ right_paren ∷ [])) ++ rest)
          (record { depth = 0; token = token; kept = kept })
        ≡ scan is_space rest (record {
          depth = 0;
          token = token ++ (name ++ left_paren ∷ (block ++ right_paren ∷ []));
          kept = kept;
        })
  unfolding scan scan_char
  enclosed-taken name block rest token kept texts inner =
      ap (λ t. scan is_space t (record { depth = 0; token = token; kept = kept }))
        (append_assoc name (left_paren ∷ (block ++ right_paren ∷ [])) rest
          ∙ ap (λ t. name ++ left_paren ∷ t) (append_assoc block (right_paren ∷ []) rest))
      ∙ scan-text is_space name (left_paren ∷ (block ++ right_paren ∷ rest)) token kept texts
      ∙ scan-inner is_space block (right_paren ∷ rest) ((token ++ name) ++ left_paren ∷ []) kept
          inner
      ∙ ap (λ t. scan is_space rest (record { depth = 0; token = t; kept = kept }))
          (append_assoc ((token ++ name) ++ left_paren ∷ []) block (right_paren ∷ [])
            ∙ append_assoc (token ++ name) (left_paren ∷ []) (block ++ right_paren ∷ [])
            ∙ append_assoc token name (left_paren ∷ (block ++ right_paren ∷ [])))

  enclosed-trimmed :
      NoBlanks
      → (name block : List ℕ) → is_nil name ≡ false
      → All (IsText is_space) name
      → trim is_space (name ++ left_paren ∷ (block ++ right_paren ∷ []))
        ≡ name ++ left_paren ∷ (block ++ right_paren ∷ [])
  unfolding trim
  enclosed-trimmed seen [] block some_char text = absurd (cc some_char)
  enclosed-trimmed seen (c ∷ name) block some_char (one, text) =
      let e = append_assoc (c ∷ name) (left_paren ∷ block) (right_paren ∷ []) in
      ap (rtrim is_space)
        (ltrim-text is_space c (name ++ left_paren ∷ (block ++ right_paren ∷ [])) one)
      ∙ ap (rtrim is_space) (sym e)
      ∙ rtrim-last is_space ((c ∷ name) ++ left_paren ∷ block) right_paren seen.right_seen
      ∙ e

  stage-IsToken :
      NoBlanks
      → (name : List ℕ) (ps : List (List ℕ × List ℕ)) → IsName name
      → All IsParam ps
      → IsToken is_space (print_enclosed name ps)
  stage-IsToken seen name [] one ok =
      text-IsToken is_space name one.some_char (plain-IsText name one.plain)
  stage-IsToken seen name (p ∷ ps) one ok =
      let texts = plain-IsText name one.plain in
      let block = joined (map print_param (p ∷ ps)) in
      record {
        some_char = is_nil-append name left_paren (block ++ right_paren ∷ []);
        trimmed = enclosed-trimmed seen name block one.some_char texts;
        taken = λ rest token kept.
            enclosed-taken name block rest token kept texts (joined-IsInner seen (p ∷ ps) ok);
      }

  pub stages-IsToken :
      NoBlanks
      → (specs : List Written) → All IsSpec specs
      → All (IsToken is_space) (map print_stage specs)
  stages-IsToken seen [] ok = tt
  stages-IsToken seen (s ∷ specs) (one, ok) =
      (stage-IsToken seen s.name s.params one.name_ok one.params_ok, stages-IsToken seen specs ok)
