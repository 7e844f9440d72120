-- ===== src/Smt/Normalizer/Weights/Comparison.antt =====
-- `_weight_comparison` of src/parseval/smt/csp.py: `0 < w` and `w = 0` over weights.
use par_seval.Common.{
  ℕ, zero, suc, ◌≡◌, refl, sym, ap, ◌∙◌, Bool, true, false, not, ◌&&◌, Bool-cases, inl, inr, arith,
  Option, none, some,
}
use mathlib.Core.Path.{subst}
use mathlib.Core.Option.{some-injective}
use par_seval.Common.Int.{pos, negsuc}
use par_seval.Scalar.Outcome.{returned, >>=-eq-returned, returned-injective}
use par_seval.Scalar.Term.{Value, bool, int, text, Predicate, eq3, lt3, Scalar}
use par_seval.Scalar.Evaluate.{
  Assignment, evaluate_predicate, evaluate, less, order_less, equal, same_value,
}
use par_seval.Scalar.Comparisons.{same_value_iff, same_value_refl, equal-returned}
use par_seval.Smt.Formula.{Formula, holds}
use par_seval.Smt.Valuation.{Valuation}
use par_seval.Smt.Valuation.Laws.{IsAdmissible, evaluate_closed}
use par_seval.Smt.Normalizer.Attempt.{
  Attempt, done, done-injective, Wanted, want_true, want_false, want_unknown, is_outcome,
}
use par_seval.Smt.Normalizer.Weights.{
  is_zero, is_positive, agrees, is_weight, weight_outcome, is_closed_zero, weight_comparison,
}
use par_seval.Smt.Normalizer.Weights.Laws.{natural_value, IsNatural, weight-IsNatural, and-eq-true}
use par_seval.Smt.Normalizer.Weights.Positive.{IsExact, IsExactOracle, positive-Decides}

is_zero_value : (x : Option Value) → is_zero (returned x) ≡ true → x ≡ natural_value 0
unfolding is_zero
is_zero_value (some (int (pos zero))) h = refl
is_zero_value (some (int (pos (suc n)))) h = cc
is_zero_value (some (int (negsuc n))) h = cc
is_zero_value (some (bool b)) h = cc
is_zero_value (some (text t)) h = cc
is_zero_value none h = cc

-- `0 < n` of the runtime is what `is_positive` says.
less_zero :
    (n : ℕ) → less (int (pos 0)) (int (pos n)) ≡ returned (is_positive (returned (natural_value n)))
unfolding less is_positive
less_zero zero = ap returned (ground arith)
less_zero (suc n) = ap returned (ground arith)

equal_zero :
    (n : ℕ)
    → same_value (int (pos n)) (int (pos 0)) ≡ not (is_positive (returned (natural_value n)))
unfolding is_positive
equal_zero zero = same_value_refl (int (pos 0))
equal_zero (suc n) = ground (arith, same_value_iff (int (pos (suc n))) (int (pos 0)))

outcome_true : (b : Bool) → b ≡ is_outcome want_true (some b)
unfolding is_outcome
outcome_true true = refl
outcome_true false = refl

outcome_false : (b c : Bool) → agrees (not b) c ≡ is_outcome want_false (some (agrees b c))
unfolding is_outcome agrees
outcome_false true true = refl
outcome_false true false = refl
outcome_false false true = refl
outcome_false false false = refl

outcome_unknown : (b : Bool) → false ≡ is_outcome want_unknown (some b)
unfolding is_outcome
outcome_unknown true = refl
outcome_unknown false = refl

none≢some {ℓ} : {A : Type ℓ} {a : A} → none ≡ some a → ⊥
none≢some h = cc

less-outcome :
    (v : Valuation) (y n : Option Value) (x : Option Bool)
    → y ≡ natural_value 0
    → IsNatural n
    → order_less v.runtime y n ≡ returned x
    → x ≡ some (agrees true (is_positive (returned n)))
unfolding order_less agrees
less-outcome v y n x p (k, q) h =
    let g : order_less v.runtime (natural_value 0) (natural_value k) ≡ returned x =
      rw (p, q) at h in
    rw q (sym (returned-injective (rw (less_zero k) at g)))

equal-outcome :
    (v : Valuation) (y n : Option Value) (x : Option Bool)
    → IsNatural y
    → n ≡ natural_value 0
    → equal v.runtime y n ≡ returned x
    → x ≡ some (agrees false (is_positive (returned y)))
unfolding agrees
equal-outcome v y n x (k, q) p h = rw q (
    equal-returned v.runtime (int (pos k)) (int (pos 0)) x (rw (p, q) at h)
    ∙ ap some (equal_zero k))

module _ (v : Valuation) (env : Assignment) (ok : IsAdmissible v env)
    (truth : Predicate → Wanted → Attempt Formula) (exact : IsExactOracle v env truth) where
  closed_zero-value :
      (t : Scalar) (x : Option Value)
      → is_closed_zero v truth t ≡ true
      → evaluate v.runtime env t ≡ returned x
      → x ≡ natural_value 0
  unfolding is_closed_zero
  closed_zero-value t x h e =
      let (o, z) = and-eq-true _ _ h in
      is_zero_value x
        (subst (λ y. is_zero y ≡ true) (sym (evaluate_closed v env ok t (not-true _ o)) ∙ e) z)
    where
      not-true : (b : Bool) → not b ≡ true → b ≡ false
      not-true true h = cc
      not-true false h = refl

  -- The formula of a weight for each outcome of the comparison `(weight > 0) == b`.
  weight_outcome-exact :
      (w : Scalar) (b : Bool) (o : Wanted) (f : Formula) (y : Option Value)
      → is_weight v w ≡ true
      → weight_outcome v truth w b o ≡ done f
      → evaluate v.runtime env w ≡ returned y
      → holds v.runtime env f ≡ is_outcome o (some (agrees b (is_positive (returned y))))
  unfolding weight_outcome
  weight_outcome-exact w b want_true f y k h e =
      positive-Decides v env ok truth exact w b f y k h e ∙ outcome_true _
  weight_outcome-exact w b want_false f y k h e =
      positive-Decides v env ok truth exact w (not b) f y k h e
      ∙ outcome_false b (is_positive (returned y))
  weight_outcome-exact w b want_unknown f y k h e =
      ap (holds v.runtime env) (sym (done-injective h))
      ∙ unfold holds is_outcome in outcome_unknown (agrees b (is_positive (returned y)))

  pub weight_comparison-IsExact :
      (p : Predicate) (o : Wanted) (a : Attempt Formula) (f : Formula)
      → weight_comparison v truth p o ≡ some a
      → a ≡ done f
      → IsExact v env p o f
  unfolding weight_comparison evaluate_predicate
  weight_comparison-IsExact (lt3 a b) o m f h d x e =
      elim (Bool-cases (is_closed_zero v truth a && is_weight v b)) [
        | inl g ↦
            let (z, w) = and-eq-true (is_closed_zero v truth a) (is_weight v b) g in
            let (y, ey, e1) = >>=-eq-returned (evaluate v.runtime env a) _ e in
            let (n, en, e2) = >>=-eq-returned (evaluate v.runtime env b) _ e1 in
            weight_outcome-exact b true o f n w (some-injective _ _ (rw g at h) ∙ d) en
            ∙ ap (is_outcome o) (
                sym (
                  less-outcome v y n x (closed_zero-value a y z ey)
                    (weight-IsNatural v env ok b n w en) e2))
        | inr g ↦ absurd (none≢some (rw g at h))
      ]
  weight_comparison-IsExact (eq3 a b) o m f h d x e =
      elim (Bool-cases (is_closed_zero v truth b && is_weight v a)) [
        | inl g ↦
            let (z, w) = and-eq-true (is_closed_zero v truth b) (is_weight v a) g in
            let (y, ey, e1) = >>=-eq-returned (evaluate v.runtime env a) _ e in
            let (n, en, e2) = >>=-eq-returned (evaluate v.runtime env b) _ e1 in
            weight_outcome-exact a false o f y w (some-injective _ _ (rw g at h) ∙ d) ey
            ∙ ap (is_outcome o) (
                sym (
                  equal-outcome v y n x (weight-IsNatural v env ok a y w ey)
                    (closed_zero-value b n z en) e2))
        | inr g ↦ absurd (none≢some (rw g at h))
      ]
  weight_comparison-IsExact p o m f h d x e = cc
