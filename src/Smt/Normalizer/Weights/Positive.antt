-- ===== src/Smt/Normalizer/Weights/Positive.antt =====
-- `positive` of src/parseval/smt/csp.py says exactly whether a weight is above zero.
use par_seval.Common.{
  ℕ, ◌≡◌, refl, sym, ap, ap₂, ◌∙◌, Bool, true, false, not, ◌||◌, Bool-cases, inl, inr, arith,
  Option, none, some, List, [], ◌∷◌, if◌then◌else◌,
}
use mathlib.Core.Path.{subst}
use mathlib.Core.Bool.{false≢true}
use par_seval.Common.Int.{pos}
use par_seval.Scalar.Outcome.{Outcome, returned, >>=-eq-returned, returned-injective}
use par_seval.Scalar.Term.{
  Value, int, Operator, Predicate, Scalar, literal, null, parameter, case, call, to_boolean,
  Scalars, no_scalars, scalars,
}
use par_seval.Scalar.Evaluate.{
  Assignment, evaluate_predicate, evaluate, evaluate_scalars, apply_operator, select, same_value,
}
use par_seval.Scalar.Comparisons.{same_value_iff, same_value_refl}
use par_seval.Smt.Formula.{
  Formula, known, atom, Formulas, no_formulas, formulas, both, either, eq, holds,
}
use par_seval.Smt.Formula.Laws.{holds-both, holds-either}
use par_seval.Smt.Valuation.{Valuation, is_open, value}
use par_seval.Smt.Valuation.Laws.{IsAdmissible, evaluate_closed}
use par_seval.Smt.Normalizer.Attempt.{
  Attempt, done, >>=-eq-done, done-injective, Wanted, want_true, want_false, want_unknown,
  is_outcome,
}
use par_seval.Smt.Normalizer.Weights.{
  is_positive, adds_or_multiplies, agrees, is_weight, are_weights, rejection, join_parts, positive,
  positives,
}
use par_seval.Smt.Normalizer.Weights.Laws.{
  natural_value, AllNatural, apply_operator_arity, apply_operator-natural, weights-AllNatural,
  and-eq-true, Decides, DecideAll, join_parts-Decides,
}

-- Every formula of the oracle is exact: it holds exactly when the predicate, if it returns, returns
-- the wanted outcome.
abbrev pub IsExact : Valuation → Assignment → Predicate → Wanted → Formula → Type 0
IsExact v env p o f =
    (x : Option Bool)
    → evaluate_predicate v.runtime env p ≡ returned x
    → holds v.runtime env f ≡ is_outcome o x

abbrev pub IsExactOracle : Valuation → Assignment → (Predicate → Wanted → Attempt Formula) → Type 0
IsExactOracle v env truth =
    (p : Predicate) (o : Wanted) (f : Formula) → truth p o ≡ done f → IsExact v env p o f

rejected_or :
    (x : Option Bool)
    → is_outcome want_false x || is_outcome want_unknown x ≡ not (is_outcome want_true x)
unfolding is_outcome
rejected_or none = refl
rejected_or (some true) = refl
rejected_or (some false) = refl

zero-passes :
    (b : Bool) → same_value (int (pos 0)) (int (pos (if b then 1 else 0))) ≡ agrees b false
unfolding agrees
zero-passes true = ground (arith, same_value_iff (int (pos 0)) (int (pos 1)))
zero-passes false = same_value_refl (int (pos 0))

one-passes : (b : Bool) → same_value (int (pos 1)) (int (pos (if b then 1 else 0))) ≡ agrees b true
unfolding agrees
one-passes true = same_value_refl (int (pos 1))
one-passes false = ground (arith, same_value_iff (int (pos 1)) (int (pos 0)))

pub or-false : (b : Bool) → b || false ≡ b
or-false true = refl
or-false false = refl

module _ (v : Valuation) (env : Assignment) (ok : IsAdmissible v env)
    (truth : Predicate → Wanted → Attempt Formula) (exact : IsExactOracle v env truth) where
  -- The condition of a CASE is TRUE or rejected, never both.
  pub rejection-exact :
      (c : Predicate) (f : Formula) (x : Option Bool)
      → rejection truth c ≡ done f
      → evaluate_predicate v.runtime env c ≡ returned x
      → holds v.runtime env f ≡ not (is_outcome want_true x)
  unfolding rejection
  rejection-exact c f x h e =
      let (g, p, h') = >>=-eq-done (truth c want_false) _ h in
      let (u, q, h'') = >>=-eq-done (truth c want_unknown) _ h' in
      ap (holds v.runtime env) (sym (done-injective h''))
      ∙ holds-either v.runtime env g u
      ∙ ap₂ ◌||◌ (exact c want_false g p x e) (exact c want_unknown u q x e)
      ∙ rejected_or x

  -- A closed weight is compared with zero by its stored value.
  closed-Decides :
      (t : Scalar) (b : Bool) (f : Formula) (x : Option Value)
      → is_open v t ≡ false
      → done (known (agrees b (is_positive (value v t)))) ≡ done f
      → evaluate v.runtime env t ≡ returned x
      → Decides v env f x b
  unfolding holds
  closed-Decides t b f x o h e =
      ap (holds v.runtime env) (sym (done-injective h))
      ∙ ap (λ y. agrees b (is_positive y)) (sym (evaluate_closed v env ok t o) ∙ e)

  -- The formula for an input that is 0 or 1.
  input-Decides :
      (x : ℕ) (y : Option Value) (b : Bool)
      → v.is_binary x ≡ true
      → env x ≡ y
      → Decides v env (atom x (eq (int (pos (if b then 1 else 0))))) y b
  unfolding holds agrees is_positive
  input-Decides x y b h e = elim (ok.binary x h) [
    | inl p ↦ let q : y ≡ natural_value 0 = sym e ∙ p in rw (p, q) (zero-passes b)
    | inr p ↦ let q : y ≡ natural_value 1 = sym e ∙ p in rw (p, q) (one-passes b)
  ]

  -- One arm of a CASE is selected, and its formula decides.
  case-Decides :
      (c : Option Bool) (S P R Q : Formula) (tv uv : Outcome (Option Value)) (x : Option Value)
      (b : Bool)
      → holds v.runtime env S ≡ is_outcome want_true c
      → holds v.runtime env R ≡ not (is_outcome want_true c)
      → ((y : Option Value) → tv ≡ returned y → Decides v env P y b)
      → ((y : Option Value) → uv ≡ returned y → Decides v env Q y b)
      → select c tv uv ≡ returned x
      → Decides v env (either (both S P) (both R Q)) x b
  unfolding select is_outcome
  case-Decides (some true) S P R Q tv uv x b s r dt du e =
      rw
        (
          holds-either v.runtime env (both S P) (both R Q),
          holds-both v.runtime env S P,
          holds-both v.runtime env R Q,
          s,
          r,
          dt x e,
        )
        (or-false _)
  case-Decides (some false) S P R Q tv uv x b s r dt du e =
      rw
        (
          holds-either v.runtime env (both S P) (both R Q),
          holds-both v.runtime env S P,
          holds-both v.runtime env R Q,
          s,
          r,
          du x e,
        )
        refl
  case-Decides none S P R Q tv uv x b s r dt du e =
      rw
        (
          holds-either v.runtime env (both S P) (both R Q),
          holds-both v.runtime env S P,
          holds-both v.runtime env R Q,
          s,
          r,
          du x e,
        )
        refl

  -- A weight in a position that is not closed.
  open-case :
      (c : Predicate) (t u : Scalar)
      → is_open v (case c t u) ≡ true
      → is_weight v (case c t u) ≡ true
      → (is_weight v t ≡ true) × (is_weight v u ≡ true)
  unfolding is_weight
  open-case c t u o w = and-eq-true _ _ (rw o at w)

  open-call :
      (op : Operator) (args : Scalars)
      → is_open v (call op args) ≡ true
      → is_weight v (call op args) ≡ true
      → (adds_or_multiplies op ≡ true) × (are_weights v args ≡ true)
  unfolding is_weight
  open-call op args o w = and-eq-true _ _ (rw o at w)

  open-input :
      (y : ℕ)
      → is_open v (parameter y) ≡ true
      → is_weight v (parameter y) ≡ true
      → v.is_binary y ≡ true
  unfolding is_weight is_open
  open-input y o w = rw o at w

  closed-boolean :
      (p : Predicate) → is_weight v (to_boolean p) ≡ true → is_open v (to_boolean p) ≡ false
  unfolding is_weight
  closed-boolean p w = elim (Bool-cases (is_open v (to_boolean p))) [
    | inl o ↦ absurd (false≢true (rw o at w))
    | inr o ↦ o
  ]

  closed-literal : (c : Value) → is_open v (literal c) ≡ false
  unfolding is_open
  closed-literal c = refl

  closed-null : is_open v null ≡ false
  unfolding is_open
  closed-null = refl

  cons-weights :
      (a : Scalar) (args : Scalars)
      → are_weights v (scalars a args) ≡ true
      → (is_weight v a ≡ true) × (are_weights v args ≡ true)
  unfolding is_weight
  cons-weights a args w = and-eq-true _ _ w

  DecideAll-cons :
      (f : Formula) (fs : Formulas) (x : Option Value) (xs : List (Option Value)) (b : Bool)
      → Decides v env f x b
      → DecideAll v env fs xs b
      → DecideAll v env (formulas f fs) (x ∷ xs) b
  unfolding DecideAll
  DecideAll-cons f fs x xs b d ds = (d, ds)

  DecideAll-nil : (b : Bool) → DecideAll v env no_formulas [] b
  unfolding DecideAll
  DecideAll-nil b = tt

  call-Decides :
      (op : Operator) (fs : Formulas) (xs : List (Option Value)) (x : Option Value) (b : Bool)
      → adds_or_multiplies op ≡ true
      → AllNatural xs
      → DecideAll v env fs xs b
      → apply_operator v.runtime op xs ≡ returned x
      → Decides v env (join_parts op b fs) x b
  call-Decides op fs xs x b a ns ds e =
      let (n, m, p) = apply_operator_arity v op xs x a ns e in
      subst (λ y. Decides v env (join_parts op b fs) y b)
        (returned-injective (sym (apply_operator-natural v op n m a) ∙ rw p at e))
        (join_parts-Decides v env op fs n m b a (subst (λ ys. DecideAll v env fs ys b) p ds))

  mutual
    unfolding positive evaluate

    pub positive-Decides :
        (t : Scalar) (b : Bool) (f : Formula) (x : Option Value)
        → is_weight v t ≡ true
        → positive v truth t b ≡ done f
        → evaluate v.runtime env t ≡ returned x
        → Decides v env f x b
    positive-Decides (parameter y) b f x w h e = elim (Bool-cases (is_open v (parameter y))) [
      | inl o ↦
          subst (λ g. Decides v env g x b) (done-injective (rw o at h))
            (input-Decides y x b (open-input y o w) (returned-injective e))
      | inr o ↦ closed-Decides (parameter y) b f x o (rw o at h) e
    ]
    positive-Decides (case c t u) b f x w h e = elim (Bool-cases (is_open v (case c t u))) [
      | inl o ↦
          let (wt, wu) = open-case c t u o w in
          let (S, hS, h1) = >>=-eq-done (truth c want_true) _ (rw o at h) in
          let (R, hR, h2) = >>=-eq-done (rejection truth c) _ h1 in
          let (P, hP, h3) = >>=-eq-done (positive v truth t b) _ h2 in
          let (Q, hQ, h4) = >>=-eq-done (positive v truth u b) _ h3 in
          let (cx, ec, es) = >>=-eq-returned (evaluate_predicate v.runtime env c) _ e in
          subst (λ g. Decides v env g x b) (done-injective h4)
            (case-Decides cx S P R Q (evaluate v.runtime env t) (evaluate v.runtime env u) x b
              (exact c want_true S hS cx ec) (rejection-exact c R cx hR ec)
              (λ y. positive-Decides t b P y wt hP) (λ y. positive-Decides u b Q y wu hQ) es)
      | inr o ↦ closed-Decides (case c t u) b f x o (rw o at h) e
    ]
    positive-Decides (call op args) b f x w h e = elim (Bool-cases (is_open v (call op args))) [
      | inl o ↦
          let (wo, wa) = open-call op args o w in
          let (fs, hf, h1) = >>=-eq-done (positives v truth args b) _ (rw o at h) in
          let (xs, ex, ea) = >>=-eq-returned (evaluate_scalars v.runtime env args) _ e in
          subst (λ g. Decides v env g x b) (done-injective h1)
            (call-Decides op fs xs x b wo (weights-AllNatural v env ok args xs wa ex)
              (positives-DecideAll args b fs xs wa hf ex) ea)
      | inr o ↦ closed-Decides (call op args) b f x o (rw o at h) e
    ]
    positive-Decides (literal c) b f x w h e =
        closed-Decides (literal c) b f x (closed-literal c) h e
    positive-Decides null b f x w h e = closed-Decides null b f x closed-null h e
    positive-Decides (to_boolean p) b f x w h e =
        closed-Decides (to_boolean p) b f x (closed-boolean p w) h e

    positives-DecideAll :
        (ts : Scalars) (b : Bool) (fs : Formulas) (xs : List (Option Value))
        → are_weights v ts ≡ true
        → positives v truth ts b ≡ done fs
        → evaluate_scalars v.runtime env ts ≡ returned xs
        → DecideAll v env fs xs b
    positives-DecideAll no_scalars b fs xs w h e =
        subst (λ gs. DecideAll v env gs xs b) (done-injective h)
          (subst (λ ys. DecideAll v env no_formulas ys b) (returned-injective e) (DecideAll-nil b))
    positives-DecideAll (scalars a args) b fs xs w h e =
        let (wa, ws) = cons-weights a args w in
        let (g, hg, h1) = >>=-eq-done (positive v truth a b) _ h in
        let (gs, hgs, h2) = >>=-eq-done (positives v truth args b) _ h1 in
        let (y, ey, e1) = >>=-eq-returned (evaluate v.runtime env a) _ e in
        let (ys, eys, e2) = >>=-eq-returned (evaluate_scalars v.runtime env args) _ e1 in
        subst (λ ks. DecideAll v env ks xs b) (done-injective h2)
          (subst (λ zs. DecideAll v env (formulas g gs) zs b) (returned-injective e2)
            (DecideAll-cons g gs y ys b (positive-Decides a b g y wa hg ey)
              (positives-DecideAll args b gs ys ws hgs eys)))
