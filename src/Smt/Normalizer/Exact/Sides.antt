-- ===== src/Smt/Normalizer/Exact/Sides.antt =====
-- `_not_distinct` and the lone-input test of src/parseval/smt/csp.py are exact.
use par_seval.Common.{
  ℕ, ◌≡◌, refl, sym, ap, ap₂, ◌∙◌, Bool, true, false, not, ◌||◌, Bool-cases, inl, inr, arith,
  Option, none, some, List, [], ◌∷◌,
}
use mathlib.Core.Option.{some-injective}
use par_seval.Scalar.Outcome.{Outcome, returned, failed, >>=-eq-returned, returned-injective}
use par_seval.Scalar.Term.{Value, bool, int, text, Predicate, is_not_distinct, Scalar, to_boolean}
use par_seval.Scalar.Evaluate.{
  Runtime, Assignment, evaluate_predicate, evaluate, is_none, not_distinct, distinct_test, cased,
  as_value, same_value,
}
use par_seval.Scalar.Comparisons.{same_value_iff, same_value_refl, distinct_test-returned}
use par_seval.Smt.Formula.{is_true_outcome, Formula, atom, holds, atom_holds, passes}
use par_seval.Smt.Formula.Laws.{holds-either}
use par_seval.Smt.Valuation.{Valuation, is_open, value, inputs_of}
use par_seval.Smt.Valuation.Laws.{IsAdmissible, evaluate_closed}
use par_seval.Smt.Normalizer.Attempt.{
  Attempt, done, unsupported, >>=-eq-done, done-injective, Wanted, want_true, want_false,
  want_unknown, is_outcome,
}
use par_seval.Smt.Normalizer.Weights.Positive.{IsExact, IsExactOracle}
use par_seval.Smt.Normalizer.Truth.{
  target_of, others, truth_literal, operand, single_input_test, boolean_distinct, boolean_side,
  plain_distinct, not_distinct_formula,
}
use par_seval.Smt.Normalizer.Exact.Distinct.{
  is_decided, not_distinct_comm, distinct_operands-decided,
}
use par_seval.Smt.Normalizer.Exact.Nodes.{to_boolean-value, operand-value}

other-outcomes :
    (t : Wanted) (x : Option Bool)
    → is_outcome (others t).0 x || is_outcome (others t).1 x ≡ not (is_outcome t x)
unfolding is_outcome
other-outcomes want_true none = refl
other-outcomes want_true (some true) = refl
other-outcomes want_true (some false) = refl
other-outcomes want_false none = refl
other-outcomes want_false (some true) = refl
other-outcomes want_false (some false) = refl
other-outcomes want_unknown none = refl
other-outcomes want_unknown (some true) = refl
other-outcomes want_unknown (some false) = refl

different : (a b : Value) → (a ≡ b → ⊥) → same_value a b ≡ false
different a b h = ground (arith, same_value_iff a b)

never-unknown : (c : Bool) → false ≡ is_outcome want_unknown (some c)
unfolding is_outcome
never-unknown true = refl
never-unknown false = refl

same-none :
    (r : Runtime) (x : Option Bool) → not_distinct (as_value r x) none ≡ is_outcome want_unknown x
unfolding is_outcome not_distinct as_value
same-none r none = refl
same-none r (some true) = refl
same-none r (some false) = refl

same-true :
    (r : Runtime) (x : Option Bool)
    → not_distinct (as_value r x) (some (bool true)) ≡ is_outcome want_true x
unfolding is_outcome not_distinct as_value
same-true r none = refl
same-true r (some true) = same_value_refl (bool true)
same-true r (some false) = ground (arith, same_value_iff (bool false) (bool true))

same-false :
    (r : Runtime) (x : Option Bool)
    → not_distinct (as_value r x) (some (bool false)) ≡ is_outcome want_false x
unfolding is_outcome not_distinct as_value
same-false r none = refl
same-false r (some false) = same_value_refl (bool false)
same-false r (some true) = ground (arith, same_value_iff (bool true) (bool false))

decided-outcome :
    (o : Wanted) (b : Bool) → (o ≡ want_unknown → ⊥) → is_decided o b ≡ is_outcome o (some b)
unfolding is_outcome
decided-outcome want_true true h = refl
decided-outcome want_true false h = refl
decided-outcome want_false true h = refl
decided-outcome want_false false h = refl
decided-outcome want_unknown b h = absurd (h refl)

module _ (v : Valuation) (env : Assignment) (ok : IsAdmissible v env)
    (truth : Predicate → Wanted → Attempt Formula) (exact : IsExactOracle v env truth) where
  target-value :
      (m : Outcome (Option Value)) (t : Wanted)
      → target_of m ≡ done t
      → (w : Option Value) × (m ≡ returned w)
        × ((x : Option Bool) → not_distinct (as_value v.runtime x) w ≡ is_outcome t x)
  unfolding target_of
  target-value (returned none) t h =
      (none, refl, λ x. same-none v.runtime x ∙ ap (λ o. is_outcome o x) (done-injective h))
  target-value (returned (some (bool true))) t h = (
    some (bool true),
    refl,
    λ x. same-true v.runtime x ∙ ap (λ o. is_outcome o x) (done-injective h),
  )
  target-value (returned (some (bool false))) t h = (
    some (bool false),
    refl,
    λ x. same-false v.runtime x ∙ ap (λ o. is_outcome o x) (done-injective h),
  )
  target-value (returned (some (int c))) t h = cc
  target-value (returned (some (text c))) t h = cc
  target-value failed t h = cc

  boolean_distinct-exact :
      (p : Predicate) (o t : Wanted) (f : Formula) (x : Option Bool)
      → boolean_distinct v truth p o t ≡ done f
      → evaluate_predicate v.runtime env p ≡ returned x
      → holds v.runtime env f ≡ is_decided o (is_outcome t x)
  unfolding boolean_distinct
  boolean_distinct-exact p want_true t f x h e = exact p t f h x e
  boolean_distinct-exact p want_false t f x h e =
      let (g, hg, h1) = >>=-eq-done (truth p (others t).0) _ h in
      let (k, hk, h2) = >>=-eq-done (truth p (others t).1) _ h1 in
      ap (holds v.runtime env) (sym (done-injective h2))
      ∙ holds-either v.runtime env g k
      ∙ ap₂ ◌||◌ (exact p (others t).0 g hg x e) (exact p (others t).1 k hk x e)
      ∙ other-outcomes t x
  boolean_distinct-exact p want_unknown t f x h e =
      let (g, hg, h1) = >>=-eq-done (truth p (others t).0) _ h in
      let (k, hk, h2) = >>=-eq-done (truth p (others t).1) _ h1 in
      ap (holds v.runtime env) (sym (done-injective h2))
      ∙ holds-either v.runtime env g k
      ∙ ap₂ ◌||◌ (exact p (others t).0 g hg x e) (exact p (others t).1 k hk x e)
      ∙ other-outcomes t x

  boolean_side-exact :
      (a b : Scalar) (o : Wanted) (m : Attempt Formula) (f : Formula) (y z : Option Value)
      → boolean_side v truth a b o ≡ some m
      → m ≡ done f
      → evaluate v.runtime env a ≡ returned y
      → evaluate v.runtime env b ≡ returned z
      → holds v.runtime env f ≡ is_decided o (not_distinct y z)
  unfolding boolean_side
  boolean_side-exact (to_boolean p) b o m f y z h k ea eb = elim (Bool-cases (is_open v b)) [
    | inl g ↦ cc (rw g at h)
    | inr g ↦
        let (t, ht, h1) =
          >>=-eq-done (target_of (value v b)) _ (some-injective _ _ (rw g at h) ∙ k) in
        let (w, ew, s) = target-value (value v b) t ht in
        let (x, ex, e) = to_boolean-value v env ok p y ea in
        let q : w ≡ z = returned-injective (sym ew ∙ sym (evaluate_closed v env ok b g) ∙ eb) in
        boolean_distinct-exact p o t f x h1 ex
        ∙ ap (is_decided o) (sym (s x) ∙ ap₂ not_distinct e q)
  ]
  boolean_side-exact a b o m f y z h k ea eb = cc

  distinct-values :
      (a b : Scalar) (x : Option Bool)
      → evaluate_predicate v.runtime env (is_not_distinct a b) ≡ returned x
      → (y z : Option Value) × (evaluate v.runtime env a ≡ returned y)
        × (evaluate v.runtime env b ≡ returned z)
        × (x ≡ some (not_distinct y z))
  unfolding evaluate_predicate
  distinct-values a b x e =
      let (y, ey, e1) = >>=-eq-returned (evaluate v.runtime env a) _ e in
      let (z, ez, e2) = >>=-eq-returned (evaluate v.runtime env b) _ e1 in
      (y, z, ey, ez, distinct_test-returned v.runtime y z x e2)

  distinct-outcome :
      (o : Wanted) (a b : Scalar) (f : Formula) (x : Option Bool)
      → ((y z : Option Value)
          → evaluate v.runtime env a ≡ returned y
          → evaluate v.runtime env b ≡ returned z
          → holds v.runtime env f ≡ is_decided o (not_distinct y z))
      → (o ≡ want_unknown → ⊥)
      → evaluate_predicate v.runtime env (is_not_distinct a b) ≡ returned x
      → holds v.runtime env f ≡ is_outcome o x
  distinct-outcome o a b f x k n e =
      let (y, z, ey, ez, g) = distinct-values a b x e in
      k y z ey ez ∙ decided-outcome o (not_distinct y z) n ∙ ap (is_outcome o) (sym g)

  plain-decided :
      (o : Wanted) (a b : Scalar) (f : Formula) (y z : Option Value)
      → plain_distinct v truth a b o ≡ done f
      → evaluate v.runtime env a ≡ returned y
      → evaluate v.runtime env b ≡ returned z
      → holds v.runtime env f ≡ is_decided o (not_distinct y z)
  unfolding plain_distinct
  plain-decided o a b f y z h ea eb =
      let (m, hm, h1) = >>=-eq-done (operand v a) _ h in
      let (k, hk, h2) = >>=-eq-done (operand v b) _ h1 in
      distinct_operands-decided v.runtime env o m k f h2
      ∙ ap (is_decided o) (
          ap₂ not_distinct (returned-injective (sym (operand-value v env ok a m hm) ∙ ea))
            (returned-injective (sym (operand-value v env ok b k hk) ∙ eb)))

  -- Either order of the operands may be the Boolean one; otherwise both are plain.
  sides-decided :
      (o : Wanted) (a b : Scalar) (f : Formula) (y z : Option Value)
      → (elim (boolean_side v truth a b o) as (λ _. Attempt Formula) [
        | some g ↦ g
        | none ↦ elim (boolean_side v truth b a o) as (λ _. Attempt Formula) [
          | some g ↦ g
          | none ↦ plain_distinct v truth a b o
        ]
      ])
        ≡ done f
      → evaluate v.runtime env a ≡ returned y
      → evaluate v.runtime env b ≡ returned z
      → holds v.runtime env f ≡ is_decided o (not_distinct y z)
  sides-decided o a b f y z h ea eb = first (boolean_side v truth a b o) refl h
    where
      second :
          (m : Option (Attempt Formula))
          → boolean_side v truth b a o ≡ m
          → (elim m as (λ _. Attempt Formula) [ some g ↦ g | none ↦ plain_distinct v truth a b o ])
            ≡ done f
          → holds v.runtime env f ≡ is_decided o (not_distinct y z)
      second (some g) e k =
          boolean_side-exact b a o g f z y e k eb ea ∙ ap (is_decided o) (not_distinct_comm z y)
      second none e k = plain-decided o a b f y z k ea eb

      first :
          (m : Option (Attempt Formula))
          → boolean_side v truth a b o ≡ m
          → (elim m as (λ _. Attempt Formula) [
            | some g ↦ g
            | none ↦ elim (boolean_side v truth b a o) as (λ _. Attempt Formula) [
              | some g ↦ g
              | none ↦ plain_distinct v truth a b o
            ]
          ])
            ≡ done f
          → holds v.runtime env f ≡ is_decided o (not_distinct y z)
      first (some g) e k = boolean_side-exact a b o g f y z e k ea eb
      first none e k = second (boolean_side v truth b a o) refl k

  pub not_distinct-IsExact :
      (a b : Scalar) (o : Wanted) (f : Formula)
      → not_distinct_formula v truth a b o ≡ done f
      → IsExact v env (is_not_distinct a b) o f
  unfolding not_distinct_formula
  not_distinct-IsExact a b want_true f h x e =
      distinct-outcome want_true a b f x (λ y z. sides-decided want_true a b f y z h) (λ q. cc) e
  not_distinct-IsExact a b want_false f h x e =
      distinct-outcome want_false a b f x (λ y z. sides-decided want_false a b f y z h) (λ q. cc) e
  not_distinct-IsExact a b want_unknown f h x e =
      let (y, z, ey, ez, g) = distinct-values a b x e in
      ap (holds v.runtime env) (sym (done-injective h))
      ∙ unfold holds in (never-unknown (not_distinct y z)) ∙ ap (is_outcome want_unknown) (sym g)

  literal_true :
      (x : Option Bool)
      → is_true_outcome (distinct_test v.runtime (as_value v.runtime x) (some (bool true)))
        ≡ is_outcome want_true x
  unfolding distinct_test as_value is_outcome not_distinct cased
  literal_true none = refl
  literal_true (some true) = rw (same_value_refl (bool true)) refl
  literal_true (some false) = rw (different (bool false) (bool true) (λ q. cc)) refl

  literal_false :
      (x : Option Bool)
      → is_true_outcome (distinct_test v.runtime (as_value v.runtime x) (some (bool false)))
        ≡ is_outcome want_false x
  unfolding distinct_test as_value is_outcome not_distinct cased
  literal_false none = refl
  literal_false (some false) = rw (same_value_refl (bool false)) refl
  literal_false (some true) = rw (different (bool true) (bool false) (λ q. cc)) refl

  literal_null :
      (x : Option Bool)
      → is_true_outcome (returned (some (is_none (as_value v.runtime x))))
        ≡ is_outcome want_unknown x
  unfolding as_value is_outcome is_none
  literal_null none = refl
  literal_null (some true) = refl
  literal_null (some false) = refl

  -- The test of a lone input says that the predicate has the outcome.
  literal-outcome :
      (o : Wanted) (p : Predicate) (x : Option Bool)
      → evaluate_predicate v.runtime env p ≡ returned x
      → is_true_outcome (evaluate_predicate v.runtime env (truth_literal o p)) ≡ is_outcome o x
  unfolding truth_literal evaluate_predicate
  literal-outcome want_true p x e = rw e (literal_true x)
  literal-outcome want_false p x e = rw e (literal_false x)
  literal-outcome want_unknown p x e = rw e (literal_null x)

  single-atom :
      (xs : List ℕ) (p : Predicate) (o : Wanted) (f : Formula)
      → (elim xs as (λ _. Attempt Formula) [
        | [] ↦ unsupported
        | x ∷ ys ↦ elim ys as (λ _. Attempt Formula) [
          | [] ↦ done (atom x (passes (truth_literal o p)))
          | _ ↦ unsupported
        ]
      ])
        ≡ done f
      → IsExact v env p o f
  unfolding holds atom_holds
  single-atom [] p o f h x e = cc
  single-atom (y ∷ []) p o f h x e =
      ap (holds v.runtime env) (sym (done-injective h)) ∙ literal-outcome o p x e
  single-atom (y ∷ z ∷ ys) p o f h x e = cc

  pub single_input_test-IsExact :
      (p : Predicate) (o : Wanted) (f : Formula)
      → single_input_test v p o ≡ done f
      → IsExact v env p o f
  unfolding single_input_test
  single_input_test-IsExact p o f h = single-atom (inputs_of v p) p o f h
