-- ===== src/Smt/Normalizer/Lift/Sound.antt =====
-- `_lift` of src/parseval/smt/csp.py returns alternatives of which exactly one is selected, with the
-- value of the lifted term.
use par_seval.Common.{
  ◌≡◌, refl, sym, ap, ◌∙◌, Bool, true, false, not, Bool-cases, inl, inr, Option, none, some, List,
  [], ◌∷◌, ◌++◌, append_assoc, append-nil, ltb, length,
}
use mathlib.Core.Path.{subst}
use par_seval.Scalar.Outcome.{Outcome, returned, >>=-eq-returned, returned-injective}
use par_seval.Scalar.Term.{
  Value, Operator, Predicate, Scalar, literal, null, parameter, case, call, to_boolean, Scalars,
  no_scalars, scalars,
}
use par_seval.Scalar.Evaluate.{
  Assignment, evaluate_predicate, evaluate, evaluate_scalars, apply_operator, select,
}
use par_seval.Smt.Formula.{Formula, known, holds}
use par_seval.Smt.Valuation.{Valuation, is_open}
use par_seval.Smt.Valuation.Laws.{IsAdmissible, fold_scalar_sound}
use par_seval.Smt.Normalizer.Attempt.{
  Attempt, done, >>=-eq-done, done-injective, Wanted, want_true, is_outcome,
}
use par_seval.Smt.Normalizer.Weights.{rejection}
use par_seval.Smt.Normalizer.Weights.Positive.{IsExactOracle, rejection-exact}
use par_seval.Smt.Normalizer.Lift.{
  Choice, case_splits, restrict, extend_one, extend_all, limited, fold_calls, lift, lift_children,
}
use par_seval.Smt.Normalizer.Lift.Laws.{
  Says, NoneHolds, Picks, NoneHolds-append, Picks-append_left, Picks-append_right, both-true,
  both-false, both-false_right, NoneHolds-restrict, Picks-restrict, Returns, ReturnAll,
  append_scalar-ReturnAll,
}

module _ (v : Valuation) (env : Assignment) where
  NoneHolds-extend_one :
      (c : Formula) (ts : Scalars) (xs : List (Choice Scalar))
      → Says v env c false
      → NoneHolds v env (extend_one c ts xs)
  unfolding extend_one
  NoneHolds-extend_one c ts [] p = tt
  NoneHolds-extend_one c ts ((d, a) ∷ xs) p =
      (both-false v env c d p, NoneHolds-extend_one c ts xs p)

  NoneHolds-extend_one_all :
      (c : Formula) (ts : Scalars) (xs : List (Choice Scalar))
      → NoneHolds v env xs
      → NoneHolds v env (extend_one c ts xs)
  unfolding extend_one
  NoneHolds-extend_one_all c ts [] p = tt
  NoneHolds-extend_one_all c ts ((d, a) ∷ xs) (p, n) =
      (both-false_right v env c d p, NoneHolds-extend_one_all c ts xs n)

  NoneHolds-extend_all :
      (cs : List (Choice Scalars)) (xs : List (Choice Scalar))
      → NoneHolds v env cs
      → NoneHolds v env (extend_all cs xs)
  unfolding extend_all
  NoneHolds-extend_all [] xs n = tt
  NoneHolds-extend_all ((c, ts) ∷ cs) xs (p, n) =
      NoneHolds-append v env (extend_one c ts xs) (extend_all cs xs)
        (NoneHolds-extend_one c ts xs p) (NoneHolds-extend_all cs xs n)

  module _ (ys : List (Option Value)) (x : Option Value) where
    Picks-extend_one :
        (c : Formula) (ts : Scalars) (xs : List (Choice Scalar))
        → Says v env c true
        → ReturnAll v env ys ts
        → Picks v env (Returns v env x) xs
        → Picks v env (ReturnAll v env (ys ++ x ∷ [])) (extend_one c ts xs)
    unfolding extend_one
    Picks-extend_one c ts [] p h k = k
    Picks-extend_one c ts ((d, a) ∷ xs) p h (inl (q, g, n)) = inl (
      both-true v env c d true p q,
      append_scalar-ReturnAll v env ts ys a x h g,
      NoneHolds-extend_one_all c ts xs n,
    )
    Picks-extend_one c ts ((d, a) ∷ xs) p h (inr (q, k)) =
        inr (both-true v env c d false p q, Picks-extend_one c ts xs p h k)

    Picks-extend_all :
        (cs : List (Choice Scalars)) (xs : List (Choice Scalar))
        → Picks v env (ReturnAll v env ys) cs
        → Picks v env (Returns v env x) xs
        → Picks v env (ReturnAll v env (ys ++ x ∷ [])) (extend_all cs xs)
    unfolding extend_all
    Picks-extend_all [] xs h k = absurd h
    Picks-extend_all ((c, ts) ∷ cs) xs (inl (p, g, n)) k =
        Picks-append_left v env (ReturnAll v env (ys ++ x ∷ [])) (extend_one c ts xs)
          (extend_all cs xs) (Picks-extend_one c ts xs p g k) (NoneHolds-extend_all cs xs n)
    Picks-extend_all ((c, ts) ∷ cs) xs (inr (p, h)) k =
        Picks-append_right v env (ReturnAll v env (ys ++ x ∷ [])) (extend_one c ts xs)
          (extend_all cs xs) (NoneHolds-extend_one c ts xs p) (Picks-extend_all cs xs h k)

limited-done : {A : Type 0} (xs ys : List A) → limited xs ≡ done ys → xs ≡ ys
unfolding limited
limited-done xs ys h = elim (Bool-cases (ltb case_splits (length xs))) [
  | inl e ↦ cc (rw e at h)
  | inr e ↦ done-injective (rw e at h)
]

module _ (v : Valuation) (env : Assignment) (ok : IsAdmissible v env)
    (truth : Predicate → Wanted → Attempt Formula) (exact : IsExactOracle v env truth) where
  NoneHolds-fold_calls :
      (op : Operator) (cs : List (Choice Scalars))
      → NoneHolds v env cs
      → NoneHolds v env (fold_calls v op cs)
  unfolding fold_calls
  NoneHolds-fold_calls op [] n = tt
  NoneHolds-fold_calls op ((c, ts) ∷ cs) (p, n) = (p, NoneHolds-fold_calls op cs n)

  Picks-fold_calls :
      (op : Operator) (cs : List (Choice Scalars)) (xs : List (Option Value)) (x : Option Value)
      → Picks v env (ReturnAll v env xs) cs
      → apply_operator v.runtime op xs ≡ returned x
      → Picks v env (Returns v env x) (fold_calls v op cs)
  unfolding fold_calls
  Picks-fold_calls op [] xs x h e = h
  Picks-fold_calls op ((c, ts) ∷ cs) xs x (inl (p, g, n)) e = inl (
    p,
    fold_scalar_sound v env ok (call op ts) x (unfold evaluate in rw g e),
    NoneHolds-fold_calls op cs n,
  )
  Picks-fold_calls op ((c, ts) ∷ cs) xs x (inr (p, h)) e = inr (p, Picks-fold_calls op cs xs x h e)

  Picks-case :
      (c : Option Bool) (S R : Formula) (P Q : List (Choice Scalar))
      (tv uv : Outcome (Option Value)) (x : Option Value)
      → Says v env S (is_outcome want_true c)
      → Says v env R (not (is_outcome want_true c))
      → (tv ≡ returned x → Picks v env (Returns v env x) P)
      → (uv ≡ returned x → Picks v env (Returns v env x) Q)
      → select c tv uv ≡ returned x
      → Picks v env (Returns v env x) (restrict S P ++ restrict R Q)
  unfolding select is_outcome
  Picks-case (some true) S R P Q tv uv x s r p q e =
      Picks-append_left v env (Returns v env x) (restrict S P) (restrict R Q)
        (Picks-restrict v env (Returns v env x) S P s (p e)) (NoneHolds-restrict v env R Q r)
  Picks-case (some false) S R P Q tv uv x s r p q e =
      Picks-append_right v env (Returns v env x) (restrict S P) (restrict R Q)
        (NoneHolds-restrict v env S P s) (Picks-restrict v env (Returns v env x) R Q r (q e))
  Picks-case none S R P Q tv uv x s r p q e =
      Picks-append_right v env (Returns v env x) (restrict S P) (restrict R Q)
        (NoneHolds-restrict v env S P s) (Picks-restrict v env (Returns v env x) R Q r (q e))

  alone :
      (t : Scalar) (x : Option Value) (cs : List (Choice Scalar))
      → done ((known true, t) ∷ []) ≡ done cs
      → Returns v env x t
      → Picks v env (Returns v env x) cs
  unfolding holds
  alone t x cs h e = subst (Picks v env (Returns v env x)) (done-injective h) (inl (refl, e, tt))

  -- The empty prefix of the children is the one choice at the start.
  pub first_choice : Picks v env (ReturnAll v env []) ((known true, no_scalars) ∷ [])
  unfolding holds evaluate
  first_choice = inl (refl, refl, tt)

  mutual
    unfolding lift evaluate

    pub lift-Picks :
        (t : Scalar) (cs : List (Choice Scalar)) (x : Option Value)
        → lift v truth t ≡ done cs
        → Returns v env x t
        → Picks v env (Returns v env x) cs
    lift-Picks (case c t u) cs x h e = elim (Bool-cases (is_open v (case c t u))) [
      | inl o ↦
          let (S, hS, h1) = >>=-eq-done (truth c want_true) _ (rw o at h) in
          let (R, hR, h2) = >>=-eq-done (rejection truth c) _ h1 in
          let (P, hP, h3) = >>=-eq-done (lift v truth t) _ h2 in
          let (Q, hQ, h4) = >>=-eq-done (lift v truth u) _ h3 in
          let (cx, ec, es) = >>=-eq-returned (evaluate_predicate v.runtime env c) _ e in
          subst (Picks v env (Returns v env x)) (done-injective h4) (
            Picks-case cx S R P Q (evaluate v.runtime env t) (evaluate v.runtime env u) x
              (exact c want_true S hS cx ec) (rejection-exact v env ok truth exact c R cx hR ec)
              (lift-Picks t P x hP) (lift-Picks u Q x hQ) es)
      | inr o ↦ alone (case c t u) x cs (rw o at h) e
    ]
    lift-Picks (call op args) cs x h e = elim (Bool-cases (is_open v (call op args))) [
      | inl o ↦
          let (ks, hk, h1) =
            >>=-eq-done (lift_children v truth ((known true, no_scalars) ∷ []) args) _
              (rw o at h) in
          let (xs, ex, ea) = >>=-eq-returned (evaluate_scalars v.runtime env args) _ e in
          subst (Picks v env (Returns v env x)) (done-injective h1) (
            Picks-fold_calls op ks xs x
              (lift_children-Picks ((known true, no_scalars) ∷ []) args ks [] xs hk first_choice ex)
              ea)
      | inr o ↦ alone (call op args) x cs (rw o at h) e
    ]
    lift-Picks (literal c) cs x h e = alone (literal c) x cs h e
    lift-Picks null cs x h e = alone null x cs h e
    lift-Picks (parameter y) cs x h e = alone (parameter y) x cs h e
    lift-Picks (to_boolean p) cs x h e = alone (to_boolean p) x cs h e

    pub lift_children-Picks :
        (chosen : List (Choice Scalars)) (ts : Scalars) (cs : List (Choice Scalars))
        (ys xs : List (Option Value))
        → lift_children v truth chosen ts ≡ done cs
        → Picks v env (ReturnAll v env ys) chosen
        → ReturnAll v env xs ts
        → Picks v env (ReturnAll v env (ys ++ xs)) cs
    lift_children-Picks chosen no_scalars cs ys xs h k e =
        subst (Picks v env (ReturnAll v env (ys ++ xs))) (done-injective h) (
          subst (λ zs. Picks v env (ReturnAll v env zs) chosen)
            (sym (append-nil ys) ∙ ap (λ zs. ys ++ zs) (returned-injective e)) k)
    lift_children-Picks chosen (scalars a args) cs ys xs h k e =
        let (choices, hc, h1) = >>=-eq-done (lift v truth a) _ h in
        let (more, hm, h2) = >>=-eq-done (limited (extend_all chosen choices)) _ h1 in
        let (x, ex, e1) = >>=-eq-returned (evaluate v.runtime env a) _ e in
        let (zs, ez, e2) = >>=-eq-returned (evaluate_scalars v.runtime env args) _ e1 in
        subst (λ ws. Picks v env (ReturnAll v env ws) cs)
          (append_assoc ys (x ∷ []) zs ∙ ap (λ ws. ys ++ ws) (returned-injective e2))
          (lift_children-Picks more args cs (ys ++ x ∷ []) zs h2
            (subst (Picks v env (ReturnAll v env (ys ++ x ∷ [])))
              (limited-done (extend_all chosen choices) more hm)
              (Picks-extend_all v env ys x chosen choices k (lift-Picks a choices x hc ex)))
            ez)
