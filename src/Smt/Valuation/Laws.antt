-- ===== src/Smt/Valuation/Laws.antt =====
-- What src/parseval/instance/valuation.py may assume of the inputs, and what folding keeps.
use par_seval.Common.{
  ℕ, ◌≡◌, refl, sym, ap, ◌∙◌, ◌⊎◌, Bool, true, false, ◌||◌, Bool-cases, inl, inr, Option, none,
  some,
}
use par_seval.Common.Int.{pos}
use par_seval.Scalar.Outcome.{returned}
use par_seval.Scalar.Term.{
  Value, int, Predicate, true3, false3, unknown3, to_predicate, eq3, lt3, like3, ilike3,
  is_not_distinct, is_null, is_not_null, not3, and3, or3, Predicates, no_predicates, predicates,
  Scalar, literal, null, parameter, case, call, to_boolean, Scalars, no_scalars, scalars,
}
use par_seval.Scalar.Evaluate.{
  Assignment, evaluate_predicate, evaluate_predicates, evaluate, evaluate_scalars, same_value,
  not_distinct,
}
use par_seval.Scalar.Comparisons.{same_value_comm, equal-returned, distinct_test-returned}
use par_seval.Smt.Valuation.{
  Valuation, is_open_predicate, any_open_predicate, is_open, any_open, value_of, value, is_excluded,
  never_equal, fold_open, truth_constant, fold_predicate, constant_term, fold_scalar,
}

-- Inputs that are not open keep their stored values, binary inputs are 0 or 1, and a key cell is a
-- value other than the stored keys.
pub record IsAdmissible (v : Valuation) (env : Assignment) : Type 0 where
  pub closed : (x : ℕ) → v.is_open_input x ≡ false → env x ≡ v.stored x
  pub binary :
      (x : ℕ) → v.is_binary x ≡ true → (env x ≡ some (int (pos 0))) ⊎ (env x ≡ some (int (pos 1)))
  pub fresh :
      (x : ℕ) (c : Value)
      → is_excluded v c (v.excluded x) ≡ true
      → (w : Value) × (env x ≡ some w) × (same_value w c ≡ false)

pub or-eq-false : (a b : Bool) → a || b ≡ false → (a ≡ false) × (b ≡ false)
or-eq-false true b h = cc
or-eq-false false b h = (refl, h)

module _ (v : Valuation) (env : Assignment) (ok : IsAdmissible v env) where
  mutual
    unfolding is_open_predicate evaluate_predicate

    closed_predicate :
        (p : Predicate)
        → is_open_predicate v p ≡ false
        → evaluate_predicate v.runtime env p ≡ value_of v p
    closed_predicate true3 h = refl
    closed_predicate false3 h = refl
    closed_predicate unknown3 h = refl
    closed_predicate (to_predicate a) h = rw (closed_scalar a h)
    closed_predicate (eq3 a b) h =
        let e = or-eq-false _ _ h in rw (closed_scalar a e.0, closed_scalar b e.1)
    closed_predicate (lt3 a b) h =
        let e = or-eq-false _ _ h in rw (closed_scalar a e.0, closed_scalar b e.1)
    closed_predicate (like3 a b) h =
        let e = or-eq-false _ _ h in rw (closed_scalar a e.0, closed_scalar b e.1)
    closed_predicate (ilike3 a b) h =
        let e = or-eq-false _ _ h in rw (closed_scalar a e.0, closed_scalar b e.1)
    closed_predicate (is_not_distinct a b) h =
        let e = or-eq-false _ _ h in rw (closed_scalar a e.0, closed_scalar b e.1)
    closed_predicate (is_null a) h = rw (closed_scalar a h)
    closed_predicate (is_not_null a) h = rw (closed_scalar a h)
    closed_predicate (not3 p) h = rw (closed_predicate p h)
    closed_predicate (and3 ps) h = rw (closed_predicates ps h)
    closed_predicate (or3 ps) h = rw (closed_predicates ps h)

    closed_predicates :
        (ps : Predicates)
        → any_open_predicate v ps ≡ false
        → evaluate_predicates v.runtime env ps ≡ evaluate_predicates v.runtime v.stored ps
    closed_predicates no_predicates h = refl
    closed_predicates (predicates p ps) h =
        let e = or-eq-false _ _ h in rw (closed_predicate p e.0, closed_predicates ps e.1)

    closed_scalar : (t : Scalar) → is_open v t ≡ false → evaluate v.runtime env t ≡ value v t
    closed_scalar (literal c) h = refl
    closed_scalar null h = refl
    closed_scalar (parameter x) h = ap returned (ok.closed x h)
    closed_scalar (case c t e) h =
        let p = or-eq-false _ _ h in
        let q = or-eq-false _ _ p.1 in
        rw (closed_predicate c p.0, closed_scalar t q.0, closed_scalar e q.1)
    closed_scalar (call op args) h = rw (closed_scalars args h)
    closed_scalar (to_boolean p) h = rw (closed_predicate p h)

    closed_scalars :
        (ts : Scalars)
        → any_open v ts ≡ false
        → evaluate_scalars v.runtime env ts ≡ evaluate_scalars v.runtime v.stored ts
    closed_scalars no_scalars h = refl
    closed_scalars (scalars a args) h =
        let e = or-eq-false _ _ h in rw (closed_scalar a e.0, closed_scalars args e.1)

  -- A predicate without open inputs has its value under the stored values, or its failure, under
  -- every admissible assignment.
  pub evaluate_closed_predicate :
      (p : Predicate)
      → is_open_predicate v p ≡ false
      → evaluate_predicate v.runtime env p ≡ value_of v p
  evaluate_closed_predicate p h = closed_predicate p h

  pub evaluate_closed : (t : Scalar) → is_open v t ≡ false → evaluate v.runtime env t ≡ value v t
  evaluate_closed t h = closed_scalar t h

  -- A folded comparison with a stored key: the cell holds another value, so the test is FALSE.
  never_equal-values :
      (a b : Scalar)
      → never_equal v a b ≡ true
      → (w c : Value) × (evaluate v.runtime env a ≡ returned (some w))
        × (evaluate v.runtime env b ≡ returned (some c))
        × (same_value w c ≡ false)
  unfolding never_equal evaluate
  never_equal-values (parameter x) (literal c) h =
      let (w, e, d) = ok.fresh x c h in (w, c, ap returned e, refl, d)
  never_equal-values (literal c) b h = cc
  never_equal-values null b h = cc
  never_equal-values (case c t e) b h = cc
  never_equal-values (call op args) b h = cc
  never_equal-values (to_boolean p) b h = cc
  never_equal-values a b h = cc

  -- The values of two operands, one of which never takes the other's.
  apart-values :
      (a b : Scalar)
      → never_equal v a b || never_equal v b a ≡ true
      → (w c : Value) × (evaluate v.runtime env a ≡ returned (some w))
        × (evaluate v.runtime env b ≡ returned (some c))
        × (same_value w c ≡ false)
  apart-values a b h = elim (Bool-cases (never_equal v a b)) [
    | inl e ↦ never_equal-values a b e
    | inr e ↦
        let (w, c, p, q, d) = never_equal-values b a (rw e at h) in
        (c, w, q, p, same_value_comm c w ∙ d)
  ]

  -- Folding an open predicate keeps what it returns.
  fold_open_sound :
      (p : Predicate) (x : Option Bool)
      → evaluate_predicate v.runtime env p ≡ returned x
      → evaluate_predicate v.runtime env (fold_open v p) ≡ returned x
  unfolding fold_open evaluate_predicate not_distinct
  fold_open_sound (eq3 a b) x h = elim (Bool-cases (never_equal v a b || never_equal v b a)) [
    | inl e ↦
        let (w, c, p, q, d) = apart-values a b e in
        rw e (ap returned (sym (equal-returned v.runtime w c x (rw (p, q) at h) ∙ ap some d)))
    | inr e ↦ rw e h
  ]
  fold_open_sound (is_not_distinct a b) x h =
      elim (Bool-cases (never_equal v a b || never_equal v b a)) [
        | inl e ↦
            let (w, c, p, q, d) = apart-values a b e in
            rw e (
              ap returned (
                sym (
                  distinct_test-returned v.runtime (some w) (some c) x (rw (p, q) at h)
                  ∙ ap some d)))
        | inr e ↦ rw e h
      ]
  fold_open_sound p x h = h

  evaluate-truth_constant :
      (x : Option Bool) → evaluate_predicate v.runtime env (truth_constant v x) ≡ returned x
  unfolding truth_constant evaluate_predicate
  evaluate-truth_constant none = refl
  evaluate-truth_constant (some true) = refl
  evaluate-truth_constant (some false) = refl

  -- Under an admissible assignment, a predicate that returns an outcome returns the same one after
  -- folding.
  pub fold_predicate_sound :
      (p : Predicate) (x : Option Bool)
      → evaluate_predicate v.runtime env p ≡ returned x
      → evaluate_predicate v.runtime env (fold_predicate v p) ≡ returned x
  unfolding fold_predicate
  fold_predicate_sound p x h = elim (Bool-cases (is_open_predicate v p)) [
    | inl e ↦ rw e (fold_open_sound p x h)
    | inr e ↦ rw (e, sym (closed_predicate p e) ∙ h) (evaluate-truth_constant x)
  ]

  evaluate-constant_term :
      (x : Option Value) → evaluate v.runtime env (constant_term v x) ≡ returned x
  unfolding constant_term evaluate
  evaluate-constant_term none = refl
  evaluate-constant_term (some c) = refl

  -- Folding a scalar keeps what it returns.
  pub fold_scalar_sound :
      (t : Scalar) (x : Option Value)
      → evaluate v.runtime env t ≡ returned x
      → evaluate v.runtime env (fold_scalar v t) ≡ returned x
  unfolding fold_scalar
  fold_scalar_sound t x h = elim (Bool-cases (is_open v t)) [
    | inl e ↦ rw e h
    | inr e ↦ rw (e, sym (closed_scalar t e) ∙ h) (evaluate-constant_term x)
  ]
