-- ===== src/Pipeline/Tokens.antt =====
-- A list of tokens with commas between them is cut into the tokens.
use caldera_sandbox.Base.{
  ℕ, ◌≡◌, refl, ap, sym, ◌∙◌, Bool, true, false, ◌&&◌, List, [], ◌∷◌, ◌++◌, All, append_assoc,
  append-nil, ◌==◌,
}
use caldera_sandbox.Base.Text.{is_nil}
use caldera_sandbox.Pipeline.Text.{
  left_paren, right_paren, comma, ltrim, rtrim, trim, keep_token, Scan, scan_char, scan,
  finish_scan, split_commas,
}

-- The texts with commas between them.
abbrev pub joined : List (List ℕ) → List ℕ
joined [] = []
joined (t ∷ []) = t
joined (t ∷ u ∷ ts) = t ++ comma ∷ joined (u ∷ ts)

pub and_false : (b : Bool) → (b && false) ≡ false
and_false true = refl
and_false false = refl

is_nil-last : (s : List ℕ) (c : ℕ) → is_nil (s ++ c ∷ []) ≡ false
is_nil-last [] c = refl
is_nil-last (x ∷ s) c = refl

-- A character that is neither parenthesis.
pub record IsInner (c : ℕ) : Type 0 where
  pub no_left : (c == left_paren) ≡ false
  pub no_right : (c == right_paren) ≡ false

module _ (is_space : ℕ → Bool) where
  -- A character that a cut leaves alone.
  pub record IsText (c : ℕ) : Type 0 where
    pub no_space : is_space c ≡ false
    pub inner : IsInner c
    pub no_comma : (c == comma) ≡ false

  -- A scan that starts outside parentheses takes all of the token, and also ends outside.
  pub record IsToken (t : List ℕ) : Type 0 where
    pub some_char : is_nil t ≡ false
    pub trimmed : trim is_space t ≡ t
    pub taken :
        (rest token : List ℕ) (kept : List (List ℕ))
        → scan is_space (t ++ rest) (record { depth = 0; token = token; kept = kept })
          ≡ scan is_space rest (record { depth = 0; token = token ++ t; kept = kept })

  rtrim-text : (s : List ℕ) → All IsText s → rtrim is_space s ≡ s
  unfolding rtrim
  rtrim-text [] text = refl
  rtrim-text (c ∷ s) (one, text) = rw (one.no_space, rtrim-text s text) refl

  pub rtrim-last :
      (s : List ℕ) (c : ℕ) → is_space c ≡ false → rtrim is_space (s ++ c ∷ []) ≡ s ++ c ∷ []
  unfolding rtrim
  rtrim-last [] c no_space = rw no_space refl
  rtrim-last (x ∷ s) c no_space =
      rw (rtrim-last s c no_space, is_nil-last s c, and_false (is_space x)) refl

  pub ltrim-text : (c : ℕ) (s : List ℕ) → IsText c → ltrim is_space (c ∷ s) ≡ c ∷ s
  unfolding ltrim
  ltrim-text c s one = rw one.no_space refl

  pub trim-text : (s : List ℕ) → All IsText s → trim is_space s ≡ s
  unfolding trim ltrim rtrim
  trim-text [] text = refl
  trim-text (c ∷ s) (one, text) =
      ap (rtrim is_space) (ltrim-text c s one) ∙ rtrim-text (c ∷ s) (one, text)

  scan_char-text :
      (c : ℕ) (s : Scan)
      → IsText c
      → scan_char is_space c s ≡ record s { token = s.token ++ c ∷ [] }
  unfolding scan_char
  scan_char-text c s one = rw (one.inner.no_left, one.inner.no_right, one.no_comma) refl

  pub scan-text :
      (t rest token : List ℕ) (kept : List (List ℕ))
      → All IsText t
      → scan is_space (t ++ rest) (record { depth = 0; token = token; kept = kept })
        ≡ scan is_space rest (record { depth = 0; token = token ++ t; kept = kept })
  unfolding scan
  scan-text [] rest token kept text =
      ap (λ t. scan is_space rest (record { depth = 0; token = t; kept = kept }))
        (sym (append-nil token))
  scan-text (c ∷ t) rest token kept (one, text) =
      let s : Scan = record { depth = 0; token = token; kept = kept } in
      ap (scan is_space (t ++ rest)) (scan_char-text c s one)
      ∙ scan-text t rest (token ++ c ∷ []) kept text
      ∙ ap (λ t. scan is_space rest (record { depth = 0; token = t; kept = kept }))
          (append_assoc token (c ∷ []) t)

  scan_char-inner :
      (c : ℕ) (token : List ℕ) (kept : List (List ℕ))
      → IsInner c
      → scan_char is_space c (record { depth = 1; token = token; kept = kept })
        ≡ record { depth = 1; token = token ++ c ∷ []; kept = kept }
  unfolding scan_char
  scan_char-inner c token kept one = rw (one.no_left, one.no_right, and_false (c == comma)) refl

  -- Between parentheses a comma does not end the token.
  pub scan-inner :
      (t rest token : List ℕ) (kept : List (List ℕ))
      → All IsInner t
      → scan is_space (t ++ rest) (record { depth = 1; token = token; kept = kept })
        ≡ scan is_space rest (record { depth = 1; token = token ++ t; kept = kept })
  unfolding scan
  scan-inner [] rest token kept inner =
      ap (λ t. scan is_space rest (record { depth = 1; token = t; kept = kept }))
        (sym (append-nil token))
  scan-inner (c ∷ t) rest token kept (one, inner) =
      ap (scan is_space (t ++ rest)) (scan_char-inner c token kept one)
      ∙ scan-inner t rest (token ++ c ∷ []) kept inner
      ∙ ap (λ t. scan is_space rest (record { depth = 1; token = t; kept = kept }))
          (append_assoc token (c ∷ []) t)

  pub text-IsToken : (t : List ℕ) → is_nil t ≡ false → All IsText t → IsToken t
  text-IsToken t some_char text = record {
    some_char = some_char;
    trimmed = trim-text t text;
    taken = λ rest token kept. scan-text t rest token kept text;
  }

  keep_token-IsToken :
      (t : List ℕ) (kept : List (List ℕ)) → IsToken t → keep_token is_space t kept ≡ kept ++ t ∷ []
  unfolding keep_token
  keep_token-IsToken t kept ok = rw (ok.trimmed, ok.some_char) refl

  scan-comma :
      (rest token : List ℕ) (kept : List (List ℕ))
      → scan is_space (comma ∷ rest) (record { depth = 0; token = token; kept = kept })
        ≡ scan is_space rest
            (record { depth = 0; token = []; kept = keep_token is_space token kept })
  unfolding scan scan_char
  scan-comma rest token kept = refl

  scan-joined :
      (t : List ℕ) (ts kept : List (List ℕ))
      → All IsToken (t ∷ ts)
      → finish_scan is_space
          (scan is_space (joined (t ∷ ts)) (record { depth = 0; token = []; kept = kept }))
        ≡ kept ++ t ∷ ts
  unfolding finish_scan scan
  scan-joined t [] kept (one, _) =
      ap
        (λ t.
          finish_scan is_space (scan is_space t (record { depth = 0; token = []; kept = kept })))
        (sym (append-nil t))
      ∙ ap (finish_scan is_space) (one.taken [] [] kept)
      ∙ keep_token-IsToken t kept one
  scan-joined t (u ∷ ts) kept (one, ok) =
      ap (finish_scan is_space)
        (one.taken (comma ∷ joined (u ∷ ts)) [] kept ∙ scan-comma (joined (u ∷ ts)) t kept)
      ∙ ap
          (λ k.
            finish_scan is_space
              (scan is_space (joined (u ∷ ts)) (record { depth = 0; token = []; kept = k })))
          (keep_token-IsToken t kept one)
      ∙ scan-joined u ts (kept ++ t ∷ []) ok
      ∙ append_assoc kept (t ∷ []) (u ∷ ts)

  pub split_commas-joined :
      (t : List ℕ) (ts : List (List ℕ))
      → All IsToken (t ∷ ts)
      → split_commas is_space (joined (t ∷ ts)) ≡ t ∷ ts
  unfolding split_commas
  split_commas-joined t ts ok = scan-joined t ts [] ok
