-- ===== src/Smt/Normalizer/Exact/Whole.antt =====
-- `Normalizer.truth` of src/parseval/smt/csp.py is exact at every depth.
use par_seval.Common.{
  ℕ, zero, suc, ◌≡◌, refl, sym, ap, ◌∙◌, Bool, true, false, not, Bool-cases, ◌⊎◌, inl, inr, Option,
  none, some,
}
use par_seval.Scalar.Outcome.{returned, >>=-eq-returned, returned-injective}
use par_seval.Scalar.Term.{
  Predicate, to_predicate, eq3, lt3, like3, is_not_distinct, is_null, is_not_null, not3, and3, or3,
}
use par_seval.Scalar.Evaluate.{
  Assignment, evaluate_predicate, evaluate_predicates, evaluate, is_none, equal, order_less,
  match_text, cased_like, conjoin, disjoin, negate,
}
use par_seval.Smt.Formula.{Formula, holds}
use par_seval.Smt.Valuation.{Valuation, is_open_predicate}
use par_seval.Smt.Valuation.Laws.{IsAdmissible}
use par_seval.Smt.Normalizer.Attempt.{
  Attempt, done, unsupported, exhausted, key_error, >>=-eq-done, done-injective, recover, Wanted,
  opposite, is_outcome,
}
use par_seval.Smt.Normalizer.Weights.{weight_comparison}
use par_seval.Smt.Normalizer.Weights.Positive.{IsExact, IsExactOracle}
use par_seval.Smt.Normalizer.Weights.Comparison.{weight_comparison-IsExact}
use par_seval.Smt.Normalizer.Lift.{split}
use par_seval.Smt.Normalizer.Lift.Split.{split-IsExact}
use par_seval.Smt.Normalizer.Truth.{
  compare_eq, compare_lt, like_operands, operand, single_input_test, parts, compare_operands,
  open_truth, one_truth, truth,
}
use par_seval.Smt.Normalizer.Exact.Tables.{
  compare_eq-IsTable, compare_lt-IsTable, like_operands-IsTable,
}
use par_seval.Smt.Normalizer.Exact.Junctions.{parts-AllSay, and-exact, or-exact}
use par_seval.Smt.Normalizer.Exact.Nodes.{
  negated-outcome, closed-IsExact, compare-exact, boolean-exact, null_test-exact,
}
use par_seval.Smt.Normalizer.Exact.Sides.{not_distinct-IsExact, single_input_test-IsExact}

module _ (v : Valuation) (env : Assignment) (ok : IsAdmissible v env) where
  module _ (oracle : Predicate → Wanted → Attempt Formula)
      (exact : IsExactOracle v env oracle) where
    -- A comparison is a weight against zero, or is read by its table.
    compared :
        (m : Option (Attempt Formula)) (second : Attempt Formula) (p : Predicate) (o : Wanted)
        (f : Formula)
        → weight_comparison v oracle p o ≡ m
        → (second ≡ done f → IsExact v env p o f)
        → (elim m as (λ _. Attempt Formula) [ some g ↦ g | none ↦ second ]) ≡ done f
        → IsExact v env p o f
    compared (some g) second p o f e k h =
        weight_comparison-IsExact v env ok oracle exact p o g f e h
    compared none second p o f e k h = k h

    open_truth-IsExact :
        (p : Predicate) (o : Wanted) (f : Formula)
        → open_truth v oracle p o ≡ done f
        → IsExact v env p o f
    unfolding open_truth evaluate_predicate
    open_truth-IsExact (not3 p) o f h x e =
        let (y, ey, e1) =
          >>=-eq-returned (evaluate_predicate v.runtime env p) (λ x. returned (negate x)) e in
        exact p (opposite o) f h y ey
        ∙ negated-outcome o y
        ∙ ap (is_outcome o) (returned-injective e1)
    open_truth-IsExact (and3 ps) o f h x e =
        let (qs, hq, h1) = >>=-eq-done (parts v oracle ps) _ h in
        let (xs, ex, e1) =
          >>=-eq-returned (evaluate_predicates v.runtime env ps) (λ xs. returned (conjoin xs)) e in
        ap (holds v.runtime env) (sym (done-injective h1))
        ∙ and-exact v env o qs xs (parts-AllSay v env oracle exact ps qs xs hq ex)
        ∙ ap (is_outcome o) (returned-injective e1)
    open_truth-IsExact (or3 ps) o f h x e =
        let (qs, hq, h1) = >>=-eq-done (parts v oracle ps) _ h in
        let (xs, ex, e1) =
          >>=-eq-returned (evaluate_predicates v.runtime env ps) (λ xs. returned (disjoin xs)) e in
        ap (holds v.runtime env) (sym (done-injective h1))
        ∙ or-exact v env o qs xs (parts-AllSay v env oracle exact ps qs xs hq ex)
        ∙ ap (is_outcome o) (returned-injective e1)
    open_truth-IsExact (is_null a) o f h x e =
        let (y, ey, e1) =
          >>=-eq-returned (evaluate v.runtime env a) (λ x. returned (some (is_none x))) e in
        null_test-exact v env ok oracle exact true a o f y h ey
        ∙ ap (is_outcome o) (returned-injective e1)
    open_truth-IsExact (is_not_null a) o f h x e =
        let (y, ey, e1) =
          >>=-eq-returned (evaluate v.runtime env a) (λ x. returned (some (not (is_none x)))) e in
        null_test-exact v env ok oracle exact false a o f y h ey
        ∙ ap (is_outcome o) (returned-injective e1)
    open_truth-IsExact (is_not_distinct a b) o f h x e =
        not_distinct-IsExact v env ok oracle exact a b o f h x e
    open_truth-IsExact (eq3 a b) o f h x e =
        compared (weight_comparison v oracle (eq3 a b) o)
          (compare_operands v oracle compare_eq a b o) (eq3 a b) o f refl
          (λ g y k.
            compare-exact v env ok oracle compare_eq (equal v.runtime)
              (compare_eq-IsTable v.runtime env) a b o f y g k)
          h x e
    open_truth-IsExact (lt3 a b) o f h x e =
        compared (weight_comparison v oracle (lt3 a b) o)
          (compare_operands v oracle compare_lt a b o) (lt3 a b) o f refl
          (λ g y k.
            compare-exact v env ok oracle compare_lt (order_less v.runtime)
              (compare_lt-IsTable v.runtime env) a b o f y g k)
          h x e
    open_truth-IsExact (like3 a b) o f h x e =
        compare-exact v env ok oracle like_operands (match_text v.runtime (cased_like v.runtime))
          (like_operands-IsTable v.runtime env) a b o f x h e
    open_truth-IsExact (to_predicate a) o f h x e =
        let (m, hm, h1) = >>=-eq-done (operand v a) _ h in boolean-exact v env ok a o m f x hm h1 e
    open_truth-IsExact p o f h x e = cc

    one_truth-IsExact :
        (p : Predicate) (o : Wanted) (f : Formula)
        → one_truth v oracle p o ≡ done f
        → IsExact v env p o f
    unfolding one_truth
    one_truth-IsExact p o f h x e = elim (Bool-cases (is_open_predicate v p)) [
      | inl g ↦ open_truth-IsExact p o f (rw g at h) x e
      | inr g ↦
          ap (holds v.runtime env) (sym (done-injective (rw g at h)))
          ∙ closed-IsExact v env ok p o g x e
    ]

  -- One of the attempts of `recover` gave the result.
  recovered :
      (a b : Attempt Formula) (f : Formula) → recover a b ≡ done f → (a ≡ done f) ⊎ (b ≡ done f)
  unfolding recover
  recovered (done g) b f h = inl h
  recovered unsupported b f h = inr h
  recovered exhausted b f h = inl h
  recovered key_error b f h = inl h

  truth-IsExact :
      (n : ℕ) (p : Predicate) (o : Wanted) (f : Formula)
      → truth v n p o ≡ done f
      → IsExact v env p o f
  unfolding truth
  truth-IsExact zero p o f h x e = cc
  truth-IsExact (suc n) p o f h x e =
      elim (recovered (one_truth v (truth v n) p o)
        (recover (split v (truth v n) p o) (single_input_test v p o)) f h) [
          | inl g ↦ one_truth-IsExact (truth v n) (truth-IsExact n) p o f g x e
          | inr g ↦ elim (recovered (split v (truth v n) p o) (single_input_test v p o) f g) [
            | inl k ↦ split-IsExact v env ok (truth v n) (truth-IsExact n) p o f k x e
            | inr k ↦ single_input_test-IsExact v env ok (truth v n) (truth-IsExact n) p o f k x e
          ]
        ]

-- Under an admissible assignment and at every depth, the formula that `truth` gives for a predicate
-- and an outcome holds exactly when the predicate, if it evaluates without a runtime error, has that
-- outcome.
pub truth-exact :
    (v : Valuation) (env : Assignment)
    → IsAdmissible v env
    → (n : ℕ) (p : Predicate) (o : Wanted) (f : Formula) (x : Option Bool) → truth v n p o ≡ done f
    → evaluate_predicate v.runtime env p ≡ returned x
    → holds v.runtime env f ≡ is_outcome o x
truth-exact v env ok n p o f x h = truth-IsExact v env ok n p o f h x
