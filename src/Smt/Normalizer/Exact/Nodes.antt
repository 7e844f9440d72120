-- ===== src/Smt/Normalizer/Exact/Nodes.antt =====
-- `Normalizer._truth` of src/parseval/smt/csp.py on each kind of predicate, when the formulas of its
-- parts are exact.
use par_seval.Common.{
  ◌≡◌, refl, sym, ap, ap₂, ◌∙◌, Bool, true, false, not, ◌||◌, Bool-cases, inl, inr, Option, none,
  some, if◌then◌else◌,
}
use par_seval.Scalar.Outcome.{Outcome, returned, failed, ◌>>=◌, >>=-eq-returned, returned-injective}
use par_seval.Scalar.Term.{Value, Predicate, Scalar, parameter, to_boolean}
use par_seval.Scalar.Evaluate.{
  Runtime, Assignment, evaluate_predicate, evaluate, is_none, negate, as_truth, as_value,
}
use par_seval.Smt.Formula.{Formula, known, atom, holds, atom_holds}
use par_seval.Smt.Formula.Laws.{holds-either}
use par_seval.Smt.Valuation.{Valuation, is_open_predicate, is_open, value_of, value}
use par_seval.Smt.Valuation.Laws.{IsAdmissible, evaluate_closed, evaluate_closed_predicate}
use par_seval.Smt.Normalizer.Attempt.{
  Attempt, done, unsupported, >>=-eq-done, done-injective, Wanted, want_true, want_false,
  want_unknown, opposite, is_outcome,
}
use par_seval.Smt.Normalizer.Weights.Positive.{IsExact, IsExactOracle}
use par_seval.Smt.Normalizer.Truth.{
  Operand, input, constant, boolean_operand, null_atom, closed_outcome, operand, null_formula,
  null_test, compare_operands,
}
use par_seval.Smt.Normalizer.Exact.Tables.{operand_value, IsTable, boolean_operand-exact}

pub negated-outcome :
    (o : Wanted) (x : Option Bool) → is_outcome (opposite o) x ≡ is_outcome o (negate x)
unfolding is_outcome opposite negate
negated-outcome want_true none = refl
negated-outcome want_true (some true) = refl
negated-outcome want_true (some false) = refl
negated-outcome want_false none = refl
negated-outcome want_false (some true) = refl
negated-outcome want_false (some false) = refl
negated-outcome want_unknown none = refl
negated-outcome want_unknown (some true) = refl
negated-outcome want_unknown (some false) = refl

unknown-none : (r : Runtime) (x : Option Bool) → is_outcome want_unknown x ≡ is_none (as_value r x)
unfolding is_outcome is_none as_value
unknown-none r none = refl
unknown-none r (some true) = refl
unknown-none r (some false) = refl

known-some :
    (r : Runtime) (x : Option Bool)
    → is_outcome want_true x || is_outcome want_false x ≡ not (is_none (as_value r x))
unfolding is_outcome is_none as_value
known-some r none = refl
known-some r (some true) = refl
known-some r (some false) = refl

outcome_self : (c : Bool) → c ≡ is_outcome want_true (some c)
unfolding is_outcome
outcome_self true = refl
outcome_self false = refl

outcome_not : (c : Bool) → not c ≡ is_outcome want_false (some c)
unfolding is_outcome
outcome_not true = refl
outcome_not false = refl

outcome_false_twice : (c : Bool) → c ≡ is_outcome want_false (some (not c))
unfolding is_outcome
outcome_false_twice true = refl
outcome_false_twice false = refl

module _ (v : Valuation) (env : Assignment) (ok : IsAdmissible v env) where
  pub closed-IsExact :
      (p : Predicate) (o : Wanted)
      → is_open_predicate v p ≡ false
      → IsExact v env p o (known (closed_outcome o (value_of v p)))
  unfolding holds closed_outcome
  closed-IsExact p o h x e =
      ap (closed_outcome o) (sym (evaluate_closed_predicate v env ok p h) ∙ e)

  -- An operand stands for the value of its term.
  value-constant :
      (t : Scalar) (x : Operand)
      → is_open v t ≡ false
      → (elim (value v t) as (λ _. Attempt Operand) [
        | failed ↦ unsupported
        | returned c ↦ done (constant c)
      ])
        ≡ done x
      → evaluate v.runtime env t ≡ returned (operand_value env x)
  value-constant t x c h = evaluate_closed v env ok t c ∙ read (value v t) h
    where
      read :
          (m : Outcome (Option Value))
          → (elim m as (λ _. Attempt Operand) [
            | failed ↦ unsupported
            | returned c ↦ done (constant c)
          ])
            ≡ done x
          → m ≡ returned (operand_value env x)
      read failed h = cc
      read (returned c) h = ap (λ y. returned (operand_value env y)) (done-injective h)

  pub operand-value :
      (t : Scalar) (x : Operand)
      → operand v t ≡ done x
      → evaluate v.runtime env t ≡ returned (operand_value env x)
  unfolding operand
  operand-value (parameter y) x h = elim (Bool-cases (v.is_open_input y)) [
    | inl e ↦
        unfold evaluate in ap (λ z. returned (operand_value env z)) (done-injective (rw e at h))
    | inr e ↦ value-constant (parameter y) x (unfold is_open in e) (rw e at h)
  ]
  operand-value t x h = elim (Bool-cases (is_open v t)) [
    | inl e ↦ cc (rw e at h)
    | inr e ↦ value-constant t x e (rw e at h)
  ]

  -- A comparison by a table that is exact.
  pub compare-exact :
      (truth : Predicate → Wanted → Attempt Formula)
      (g : Wanted → Operand → Operand → Attempt Formula)
      (test : Option Value → Option Value → Outcome (Option Bool))
      → IsTable v.runtime env g test
      → (a b : Scalar) (o : Wanted) (f : Formula) (x : Option Bool)
      → compare_operands v truth g a b o ≡ done f
      → (evaluate v.runtime env a >>= λ y. evaluate v.runtime env b >>= test y) ≡ returned x
      → holds v.runtime env f ≡ is_outcome o x
  unfolding compare_operands
  compare-exact truth g test table a b o f x h e =
      let (y, hy, h1) = >>=-eq-done (operand v a) _ h in
      let (z, hz, h2) = >>=-eq-done (operand v b) _ h1 in
      table o y z f x h2 (rw (operand-value a y hy, operand-value b z hz) at e)

  pub to_boolean-value :
      (p : Predicate) (y : Option Value)
      → evaluate v.runtime env (to_boolean p) ≡ returned y
      → (x : Option Bool) × (evaluate_predicate v.runtime env p ≡ returned x)
        × (as_value v.runtime x ≡ y)
  unfolding evaluate
  to_boolean-value p y h =
      let (x, ex, e) =
        >>=-eq-returned (evaluate_predicate v.runtime env p) (λ x. returned (as_value v.runtime x))
          h in
      (x, ex, returned-injective e)

  pub boolean-exact :
      (a : Scalar) (o : Wanted) (m : Operand) (f : Formula) (x : Option Bool)
      → operand v a ≡ done m
      → boolean_operand o m ≡ done f
      → (evaluate v.runtime env a >>= as_truth v.runtime) ≡ returned x
      → holds v.runtime env f ≡ is_outcome o x
  boolean-exact a o m f x h k e =
      boolean_operand-exact v.runtime env o m f x k (rw (operand-value a m h) at e)

  module _ (truth : Predicate → Wanted → Attempt Formula) (exact : IsExactOracle v env truth) where
    -- `_null` says whether the value is NULL.
    abbrev null_says : Bool → Option Value → Bool
    null_says b y = if b then is_none y else not (is_none y)

    null_operand :
        (a : Scalar) (b : Bool) (m : Operand) (f : Formula) (y : Option Value)
        → operand v a ≡ done m
        → (elim m as (λ _. Attempt Formula) [
          | input x ↦ done (atom x (null_atom b))
          | constant c ↦ done (known (null_says b c))
        ])
          ≡ done f
        → evaluate v.runtime env a ≡ returned y
        → holds v.runtime env f ≡ null_says b y
    unfolding holds null_atom atom_holds
    null_operand a true (input x) f y h k e =
        ap (holds v.runtime env) (sym (done-injective k))
        ∙ ap is_none (returned-injective (sym (operand-value a (input x) h) ∙ e))
    null_operand a false (input x) f y h k e =
        ap (holds v.runtime env) (sym (done-injective k))
        ∙ ap (λ m. not (is_none m)) (returned-injective (sym (operand-value a (input x) h) ∙ e))
    null_operand a b (constant c) f y h k e =
        ap (holds v.runtime env) (sym (done-injective k))
        ∙ ap (null_says b) (returned-injective (sym (operand-value a (constant c) h) ∙ e))

    null_formula-exact :
        (a : Scalar) (b : Bool) (f : Formula) (y : Option Value)
        → null_formula v truth a b ≡ done f
        → evaluate v.runtime env a ≡ returned y
        → holds v.runtime env f ≡ null_says b y
    unfolding null_formula
    null_formula-exact (to_boolean p) true f y h e =
        let (x, ex, e1) = to_boolean-value p y e in
        exact p want_unknown f h x ex ∙ unknown-none v.runtime x ∙ ap is_none e1
    null_formula-exact (to_boolean p) false f y h e =
        let (x, ex, e1) = to_boolean-value p y e in
        let (t, ht, h1) = >>=-eq-done (truth p want_true) _ h in
        let (g, hg, h2) = >>=-eq-done (truth p want_false) _ h1 in
        ap (holds v.runtime env) (sym (done-injective h2))
        ∙ holds-either v.runtime env t g
        ∙ ap₂ ◌||◌ (exact p want_true t ht x ex) (exact p want_false g hg x ex)
        ∙ known-some v.runtime x
        ∙ ap (λ m. not (is_none m)) e1
    null_formula-exact a b f y h e =
        let (m, hm, h1) = >>=-eq-done (operand v a) _ h in null_operand a b m f y hm h1 e

    -- IS NULL and IS NOT NULL.
    pub null_test-exact :
        (b : Bool) (a : Scalar) (o : Wanted) (f : Formula) (y : Option Value)
        → null_test v truth b a o ≡ done f
        → evaluate v.runtime env a ≡ returned y
        → holds v.runtime env f ≡ is_outcome o (some (null_says b y))
    unfolding null_test is_outcome
    null_test-exact b a want_unknown f y h e =
        ap (holds v.runtime env) (sym (done-injective h))
        ∙ unfold holds in outcome_none (null_says b y)
      where
        outcome_none : (c : Bool) → false ≡ is_outcome want_unknown (some c)
        outcome_none true = refl
        outcome_none false = refl
    null_test-exact b a want_true f y h e =
        let (n, hn, h1) = >>=-eq-done (null_formula v truth a true) _ h in
        let (m, hm, h2) = >>=-eq-done (null_formula v truth a false) _ h1 in
        ap (holds v.runtime env) (sym (done-injective h2))
        ∙ choose b n m (null_formula-exact a true n y hn e) (null_formula-exact a false m y hm e)
      where
        choose :
            (b : Bool) (n m : Formula)
            → holds v.runtime env n ≡ is_none y
            → holds v.runtime env m ≡ not (is_none y)
            → holds v.runtime env (if b then n else m) ≡ is_outcome want_true (some (null_says b y))
        choose true n m p q = p ∙ outcome_self (is_none y)
        choose false n m p q = q ∙ outcome_self (not (is_none y))
    null_test-exact b a want_false f y h e =
        let (n, hn, h1) = >>=-eq-done (null_formula v truth a true) _ h in
        let (m, hm, h2) = >>=-eq-done (null_formula v truth a false) _ h1 in
        ap (holds v.runtime env) (sym (done-injective h2))
        ∙ choose b n m (null_formula-exact a true n y hn e) (null_formula-exact a false m y hm e)
      where
        choose :
            (b : Bool) (n m : Formula)
            → holds v.runtime env n ≡ is_none y
            → holds v.runtime env m ≡ not (is_none y)
            → holds v.runtime env (if b then m else n)
              ≡ is_outcome want_false (some (null_says b y))
        choose true n m p q = q ∙ outcome_not (is_none y)
        choose false n m p q = p ∙ outcome_false_twice (is_none y)
