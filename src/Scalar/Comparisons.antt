-- ===== src/Scalar/Comparisons.antt =====
-- What a comparison of src/parseval/symbolic/operations.py returns, if the collation lets it return.
use par_seval.Common.{ℕ, ◌≡◌, refl, ◌↔◌, Bool, true, Option, some, List, arith}
use mathlib.Core.Bool.{decide}
use par_seval.Scalar.Outcome.{returned, >>=-eq-returned}
use par_seval.Scalar.Term.{Value, text, Value-discrete}
use par_seval.Scalar.Evaluate.{
  Runtime, same_value, cased, equal, same_text, distinct_test, not_distinct,
}

pub same_value_iff : (a b : Value) → (same_value a b ≡ true) ↔ (a ≡ b)
unfolding same_value decide
same_value_iff a b = elim (Value-discrete a b) as (λ d. (decide d ≡ true) ↔ (a ≡ b)) [
  | yes p ↦ (λ _. p, λ _. refl)
  | no p ↦ (λ h. cc, λ h. absurd (p h))
]

pub same_value_refl : (a : Value) → same_value a a ≡ true
same_value_refl a = (same_value_iff a a).1 refl

pub same_value_comm : (a b : Value) → same_value a b ≡ same_value b a
same_value_comm a b = ground (arith, same_value_iff a b, same_value_iff b a)

module _ (r : Runtime) where
  cased-returned :
      (res : Bool) (test : List ℕ → List ℕ → Bool) (a b : Value) (y : Bool)
      → cased r res test a b ≡ returned y
      → y ≡ res
  unfolding cased
  cased-returned res test (text a) (text b) y h = ground arith
  cased-returned res test a b y h = cc

  pub equal-returned :
      (a b : Value) (x : Option Bool)
      → equal r (some a) (some b) ≡ returned x
      → x ≡ some (same_value a b)
  unfolding equal
  equal-returned a b x h =
      let (y, e, f) =
        >>=-eq-returned (cased r (same_value a b) (same_text r) a b) (λ v. returned (some v)) h in
      cc (cased-returned (same_value a b) (same_text r) a b y e)

  pub distinct_test-returned :
      (a b : Option Value) (x : Option Bool)
      → distinct_test r a b ≡ returned x
      → x ≡ some (not_distinct a b)
  unfolding distinct_test not_distinct
  distinct_test-returned (some a) (some b) x h =
      let (y, e, f) =
        >>=-eq-returned (cased r (same_value a b) (same_text r) a b) (λ v. returned (some v)) h in
      cc (cased-returned (same_value a b) (same_text r) a b y e)
  distinct_test-returned a b x h = cc
