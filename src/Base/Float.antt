-- ===== src/Base/Float.antt =====
-- What the code does with a `float` or a `double`. There are no floats here: a type of them and its
-- operations are an instance argument of the definitions that compute with them.
use caldera_sandbox.Base.{ℕ, Bool}

pub record Float (A : Type 0) : Type 0 where
  -- `static_cast` from an unsigned integer, and back (towards zero)
  pub of_ℕ : ℕ → A
  pub truncate : A → ℕ
  -- the literal `n / d`
  pub ratio : ℕ → ℕ → A
  pub add : A → A → A
  pub sub : A → A → A
  pub mul : A → A → A
  pub div : A → A → A
  pub abs : A → A
  pub eq : A → A → Bool
  pub lt : A → A → Bool
  pub le : A → A → Bool
  pub is_finite : A → Bool
  pub nan : A
