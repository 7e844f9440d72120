-- ===== src/Smt/Normalizer/Weights/Laws.antt =====
-- The formulas that src/parseval/smt/csp.py gives for weights: a weight is a natural number, and
-- `positive` says exactly whether it is zero.
use par_seval.Common.{
  ℕ, zero, suc, ◌+◌, ◌*◌, ◌≡◌, refl, sym, ap, ◌∙◌, ◌⊎◌, Bool, true, false, not, ◌&&◌, ◌||◌,
  Bool-cases, inl, inr, arith, Option, none, some, List, [], ◌∷◌, ltb, lt→ltb, if◌then◌else◌,
}
use native.Mathlib.Nat.{zero-mul, mul-zero}
use mathlib.Core.Path.{subst}
use mathlib.Core.Bool.{false≢true}
use par_seval.Common.Int.{pos, negsuc, ◌+ℤ◌, ◌*ℤ◌}
use par_seval.Scalar.Outcome.{Outcome, returned, ◌>>=◌, >>=-eq-returned, returned-injective}
use par_seval.Scalar.Term.{
  Value, bool, int, text, Operator, add, mul, sub, named, Scalar, literal, null, parameter, case,
  call, to_boolean, Scalars, no_scalars, scalars,
}
use par_seval.Scalar.Evaluate.{
  Assignment, evaluate_predicate, evaluate, evaluate_scalars, apply_operator, select,
}
use par_seval.Smt.Formula.{Formula, Formulas, no_formulas, formulas, holds}
use par_seval.Smt.Formula.Laws.{holds-both, holds-either}
use par_seval.Smt.Valuation.{Valuation, is_open, value}
use par_seval.Smt.Valuation.Laws.{IsAdmissible, evaluate_closed}
use par_seval.Smt.Normalizer.Weights.{
  is_natural, is_positive, adds_or_multiplies, agrees, is_weight, are_weights, join_parts,
}

pub +ℤ-pos : (n m : ℕ) → pos n +ℤ pos m ≡ pos (n + m)
unfolding ◌+ℤ◌
+ℤ-pos n m = ground arith

pub *ℤ-pos : (n m : ℕ) → pos n *ℤ pos m ≡ pos (n * m)
unfolding ◌*ℤ◌
*ℤ-pos n m = ground arith

-- A natural number, as a non-NULL integer value.
abbrev pub IsNatural : Option Value → Type 0
IsNatural x = (n : ℕ) × (x ≡ some (int (pos n)))

unfoldable pub AllNatural : List (Option Value) → Type 0
AllNatural [] = Unit
AllNatural (x ∷ xs) = IsNatural x × AllNatural xs

is_natural-IsNatural : (x : Option Value) → is_natural (returned x) ≡ true → IsNatural x
unfolding is_natural
is_natural-IsNatural (some (int (pos n))) h = (n, refl)
is_natural-IsNatural none h = cc
is_natural-IsNatural (some (int (negsuc n))) h = cc
is_natural-IsNatural (some (bool b)) h = cc
is_natural-IsNatural (some (text t)) h = cc

abbrev pub combine : Operator → ℕ → ℕ → ℕ
combine add n m = n + m
combine _ n m = n * m

abbrev pub natural_value : ℕ → Option Value
natural_value n = some (int (pos n))

pub apply_operator-natural :
    (v : Valuation) (op : Operator) (n m : ℕ)
    → adds_or_multiplies op ≡ true
    → apply_operator v.runtime op (natural_value n ∷ natural_value m ∷ [])
      ≡ returned (natural_value (combine op n m))
unfolding apply_operator adds_or_multiplies
apply_operator-natural v add n m h = ap (λ k. returned (some (int k))) (+ℤ-pos n m)
apply_operator-natural v mul n m h = ap (λ k. returned (some (int k))) (*ℤ-pos n m)
apply_operator-natural v sub n m h = cc
apply_operator-natural v (named f) n m h = cc

-- Addition and multiplication return on two arguments only.
pub apply_operator_arity :
    (v : Valuation) (op : Operator) (xs : List (Option Value)) (z : Option Value)
    → adds_or_multiplies op ≡ true
    → AllNatural xs
    → apply_operator v.runtime op xs ≡ returned z
    → (n m : ℕ) × (xs ≡ natural_value n ∷ natural_value m ∷ [])
unfolding apply_operator adds_or_multiplies AllNatural
apply_operator_arity v op (x ∷ y ∷ []) z a ((n, p), ((m, q), t)) h = (n, m, cc)
apply_operator_arity v add [] z a ns h = cc
apply_operator_arity v mul [] z a ns h = cc
apply_operator_arity v add (x ∷ []) z a ((n, p), t) h = cc
apply_operator_arity v mul (x ∷ []) z a ((n, p), t) h = cc
apply_operator_arity v add (x ∷ y ∷ w ∷ xs) z a ((n, p), ((m, q), t)) h = cc
apply_operator_arity v mul (x ∷ y ∷ w ∷ xs) z a ((n, p), ((m, q), t)) h = cc
apply_operator_arity v sub xs z a ns h = cc
apply_operator_arity v (named f) xs z a ns h = cc

apply_operator-IsNatural :
    (v : Valuation) (op : Operator) (xs : List (Option Value)) (z : Option Value)
    → adds_or_multiplies op ≡ true
    → AllNatural xs
    → apply_operator v.runtime op xs ≡ returned z
    → IsNatural z
apply_operator-IsNatural v op xs z a ns h =
    let (n, m, e) = apply_operator_arity v op xs z a ns h in
    (combine op n m, sym (returned-injective (sym (apply_operator-natural v op n m a) ∙ rw e at h)))

select-IsNatural :
    (c : Option Bool) (t e : Outcome (Option Value)) (x : Option Value)
    → ((y : Option Value) → t ≡ returned y → IsNatural y)
    → ((y : Option Value) → e ≡ returned y → IsNatural y)
    → select c t e ≡ returned x
    → IsNatural x
unfolding select
select-IsNatural (some true) t e x f g h = f x h
select-IsNatural (some false) t e x f g h = g x h
select-IsNatural none t e x f g h = g x h

pub and-eq-true : (a b : Bool) → a && b ≡ true → (a ≡ true) × (b ≡ true)
and-eq-true true b h = (refl, h)
and-eq-true false b h = cc

AllNatural-cons :
    (y : Option Value) (ys : List (Option Value))
    → IsNatural y
    → AllNatural ys
    → AllNatural (y ∷ ys)
unfolding AllNatural
AllNatural-cons y ys n ns = (n, ns)

pub binary-IsNatural :
    {x y : Option Value} → (x ≡ natural_value 0) ⊎ (x ≡ natural_value 1) → x ≡ y → IsNatural y
binary-IsNatural (inl e) h = (0, sym h ∙ e)
binary-IsNatural (inr e) h = (1, sym h ∙ e)

module _ (v : Valuation) (env : Assignment) (ok : IsAdmissible v env) where
  -- A closed term with a natural value has it under every assignment.
  pub closed-IsNatural :
      (t : Scalar) (x : Option Value)
      → is_open v t ≡ false
      → is_natural (value v t) ≡ true
      → evaluate v.runtime env t ≡ returned x
      → IsNatural x
  closed-IsNatural t x e h r =
      is_natural-IsNatural x (rw (sym (evaluate_closed v env ok t e) ∙ r) at h)

  pub open-parameter : (y : ℕ) → v.is_open_input y ≡ false → is_open v (parameter y) ≡ false
  unfolding is_open
  open-parameter y h = h

  closed_only :
      (t : Scalar) (x : Option Value)
      → (if is_open v t then false else is_natural (value v t)) ≡ true
      → evaluate v.runtime env t ≡ returned x
      → IsNatural x
  closed_only t x h r = elim (Bool-cases (is_open v t)) [
    | inl o ↦ absurd (false≢true (rw o at h))
    | inr o ↦ closed-IsNatural t x o (rw o at h) r
  ]

  mutual
    unfolding is_weight evaluate AllNatural

    pub weight-IsNatural :
        (t : Scalar) (x : Option Value)
        → is_weight v t ≡ true
        → evaluate v.runtime env t ≡ returned x
        → IsNatural x
    weight-IsNatural (parameter y) x h r = elim (Bool-cases (v.is_open_input y)) [
      | inl e ↦ binary-IsNatural (ok.binary y (rw e at h)) (returned-injective r)
      | inr e ↦ closed-IsNatural (parameter y) x (open-parameter y e) (rw e at h) r
    ]
    weight-IsNatural (case c t e) x h r = elim (Bool-cases (is_open v (case c t e))) [
      | inl o ↦
          let (ht, he) = and-eq-true _ _ (rw o at h) in
          let (b, _, g) =
            >>=-eq-returned (evaluate_predicate v.runtime env c)
              (λ b. select b (evaluate v.runtime env t) (evaluate v.runtime env e)) r in
          select-IsNatural b (evaluate v.runtime env t) (evaluate v.runtime env e) x
            (λ y. weight-IsNatural t y ht) (λ y. weight-IsNatural e y he) g
      | inr o ↦ closed-IsNatural (case c t e) x o (rw o at h) r
    ]
    weight-IsNatural (call op args) x h r = elim (Bool-cases (is_open v (call op args))) [
      | inl o ↦
          let (ho, ha) = and-eq-true _ _ (rw o at h) in
          let (xs, f, g) =
            >>=-eq-returned (evaluate_scalars v.runtime env args) (apply_operator v.runtime op) r in
          apply_operator-IsNatural v op xs x ho (weights-AllNatural args xs ha f) g
      | inr o ↦ closed-IsNatural (call op args) x o (rw o at h) r
    ]
    weight-IsNatural (literal c) x h r = closed_only (literal c) x h r
    weight-IsNatural null x h r = closed_only null x h r
    weight-IsNatural (to_boolean p) x h r = closed_only (to_boolean p) x h r

    pub weights-AllNatural :
        (ts : Scalars) (xs : List (Option Value))
        → are_weights v ts ≡ true
        → evaluate_scalars v.runtime env ts ≡ returned xs
        → AllNatural xs
    weights-AllNatural no_scalars xs h r = subst AllNatural (returned-injective r) tt
    weights-AllNatural (scalars a args) xs h r =
        let (ha, hs) = and-eq-true _ _ h in
        let (y, e, f) =
          >>=-eq-returned (evaluate v.runtime env a)
            (λ y. evaluate_scalars v.runtime env args >>= λ ys. returned (y ∷ ys)) r in
        let (ys, g, k) =
          >>=-eq-returned (evaluate_scalars v.runtime env args) (λ ys. returned (y ∷ ys)) f in
        subst AllNatural (returned-injective k)
          (AllNatural-cons y ys (weight-IsNatural a y ha e) (weights-AllNatural args ys hs g))

ltb-mul : (n m : ℕ) → ltb 0 (n * m) ≡ ltb 0 n && ltb 0 m
ltb-mul zero m = ground (arith, zero-mul m)
ltb-mul (suc n) zero = ground (arith, mul-zero (suc n))
ltb-mul (suc n) (suc m) = rw (lt→ltb 0 (suc n * suc m) (grind arith)) (ground arith)

positive_natural : (n : ℕ) → is_positive (returned (natural_value n)) ≡ ltb 0 n
unfolding is_positive
positive_natural zero = refl
positive_natural (suc n) = ground arith

positive-add :
    (n m : ℕ)
    → is_positive (returned (natural_value (n + m)))
      ≡ is_positive (returned (natural_value n)) || is_positive (returned (natural_value m))
positive-add n m =
    rw (positive_natural (n + m), positive_natural n, positive_natural m) (ground arith)

positive-mul :
    (n m : ℕ)
    → is_positive (returned (natural_value (n * m)))
      ≡ is_positive (returned (natural_value n)) && is_positive (returned (natural_value m))
positive-mul n m =
    rw (positive_natural (n * m), positive_natural n, positive_natural m) (ltb-mul n m)

not-or : (a b : Bool) → not a && not b ≡ not (a || b)
not-or true b = refl
not-or false b = refl

not-and : (a b : Bool) → not a || not b ≡ not (a && b)
not-and true b = refl
not-and false b = refl

-- `holds` of the formulas of a list of weights, one by one.
module _ (v : Valuation) (env : Assignment) where
  abbrev pub Decides : Formula → Option Value → Bool → Type 0
  Decides f x b = holds v.runtime env f ≡ agrees b (is_positive (returned x))

  unfoldable pub DecideAll : Formulas → List (Option Value) → Bool → Type 0
  DecideAll no_formulas [] b = Unit
  DecideAll (formulas f fs) (x ∷ xs) b = Decides f x b × DecideAll fs xs b
  DecideAll _ _ b = ⊥

  -- A sum is positive if a part is, a product if both are.
  pub join_parts-Decides :
      (op : Operator) (fs : Formulas) (n m : ℕ) (b : Bool)
      → adds_or_multiplies op ≡ true
      → DecideAll fs (natural_value n ∷ natural_value m ∷ []) b
      → Decides (join_parts op b fs) (natural_value (combine op n m)) b
  unfolding DecideAll join_parts adds_or_multiplies agrees is_positive
  join_parts-Decides add (formulas f (formulas g no_formulas)) n m true h (p, (q, t)) =
      rw (holds-either v.runtime env f g, p, q) (sym (positive-add n m))
  join_parts-Decides add (formulas f (formulas g no_formulas)) n m false h (p, (q, t)) =
      rw (holds-both v.runtime env f g, p, q, positive-add n m) (not-or _ _)
  join_parts-Decides mul (formulas f (formulas g no_formulas)) n m true h (p, (q, t)) =
      rw (holds-both v.runtime env f g, p, q) (sym (positive-mul n m))
  join_parts-Decides mul (formulas f (formulas g no_formulas)) n m false h (p, (q, t)) =
      rw (holds-either v.runtime env f g, p, q, positive-mul n m) (not-and _ _)
  join_parts-Decides sub fs n m b h d = cc
  join_parts-Decides (named k) fs n m b h d = cc
  join_parts-Decides op (formulas f (formulas g (formulas k fs))) n m b h (p, (q, t)) = absurd t
  join_parts-Decides op (formulas f no_formulas) n m b h (p, q) = absurd q
  join_parts-Decides op no_formulas n m b h d = absurd d
