-- ===== src/Smt/Normalizer/Lift/Split.antt =====
-- `_split` of src/parseval/smt/csp.py is exact: the disjunction over the alternatives says what the
-- predicate with its CASE operands says.
use par_seval.Common.{
  ◌≡◌, refl, sym, ap, ap₂, ◌∙◌, Bool, true, false, ◌||◌, inl, inr, Option, List, [], ◌∷◌,
  if◌then◌else◌,
}
use par_seval.Scalar.Outcome.{Outcome, returned, ◌>>=◌, >>=-eq-returned, returned-injective}
use par_seval.Scalar.Term.{
  Value, Predicate, to_predicate, eq3, lt3, like3, ilike3, is_not_distinct, is_null, is_not_null,
  Scalar, Scalars, no_scalars, scalars,
}
use par_seval.Scalar.Evaluate.{Assignment, evaluate_predicate, evaluate, evaluate_scalars}
use par_seval.Smt.Formula.{Formula, known, Formulas, holds, any_holds}
use par_seval.Smt.Formula.Laws.{holds-any_of}
use par_seval.Smt.Valuation.{Valuation, fold_predicate}
use par_seval.Smt.Valuation.Laws.{IsAdmissible, fold_predicate_sound}
use par_seval.Smt.Normalizer.Attempt.{
  Attempt, done, unsupported, >>=-eq-done, done-injective, Wanted, is_outcome,
}
use par_seval.Smt.Normalizer.Weights.Positive.{IsExact, IsExactOracle, or-false}
use par_seval.Smt.Normalizer.Lift.{
  Choice, lift_children, nothing_lifted, operands, with_operands, alternatives, split_apart, split,
}
use par_seval.Smt.Normalizer.Lift.Laws.{NoneHolds, Picks, ReturnAll, both-true, both-false}
use par_seval.Smt.Normalizer.Lift.Sound.{first_choice, lift_children-Picks}

nil≢cons {ℓ} : {A : Type ℓ} {a : A} {xs : List A} → [] ≡ a ∷ xs → ⊥
nil≢cons h = cc

cons≢nil {ℓ} : {A : Type ℓ} {a : A} {xs : List A} → a ∷ xs ≡ [] → ⊥
cons≢nil h = cc

module _ (v : Valuation) (env : Assignment) where
  -- The operands have values, and the predicate returns the same on other operands with them.
  abbrev HasOperands : Predicate → Option Bool → Type 0
  HasOperands p x =
      (xs : List (Option Value)) × ReturnAll v env xs (operands p)
      × ((ts : Scalars)
          → ReturnAll v env xs ts
          → evaluate_predicate v.runtime env (with_operands p ts) ≡ returned x)

  one_value :
      (a : Scalar) (y : Option Value)
      → ReturnAll v env (y ∷ []) (scalars a no_scalars)
      → evaluate v.runtime env a ≡ returned y
  unfolding evaluate
  one_value a y h =
      let (z, ez, e) = >>=-eq-returned (evaluate v.runtime env a) _ h in
      rw ez (ap returned (cc (returned-injective e)))

  two_values :
      (a b : Scalar) (y z : Option Value)
      → ReturnAll v env (y ∷ z ∷ []) (scalars a (scalars b no_scalars))
      → (evaluate v.runtime env a ≡ returned y) × (evaluate v.runtime env b ≡ returned z)
  unfolding evaluate
  two_values a b y z h =
      let (y', ey, e) = >>=-eq-returned (evaluate v.runtime env a) _ h in
      let (zs, ez, e') =
        >>=-eq-returned (evaluate_scalars v.runtime env (scalars b no_scalars)) _ e in
      let g : y' ∷ zs ≡ y ∷ z ∷ [] = returned-injective e' in
      (ey ∙ ap returned (cc), one_value b z (ez ∙ ap returned (cc)))

  return_one :
      (a : Scalar) (y : Option Value)
      → evaluate v.runtime env a ≡ returned y
      → ReturnAll v env (y ∷ []) (scalars a no_scalars)
  unfolding evaluate
  return_one a y h = rw h refl

  return_two :
      (a b : Scalar) (y z : Option Value)
      → evaluate v.runtime env a ≡ returned y
      → evaluate v.runtime env b ≡ returned z
      → ReturnAll v env (y ∷ z ∷ []) (scalars a (scalars b no_scalars))
  unfolding evaluate
  return_two a b y z h k = rw (h, k) refl

  shape_one :
      (ts : Scalars) (y : Option Value)
      → ReturnAll v env (y ∷ []) ts
      → (c : Scalar) × (ts ≡ scalars c no_scalars) × (evaluate v.runtime env c ≡ returned y)
  unfolding evaluate
  shape_one no_scalars y h = absurd (nil≢cons (returned-injective h))
  shape_one (scalars a no_scalars) y h = (a, refl, one_value a y h)
  shape_one (scalars a (scalars b ts)) y h =
      let (x, ex, e) = >>=-eq-returned (evaluate v.runtime env a) _ h in
      let (xs, exs, e') = >>=-eq-returned (evaluate_scalars v.runtime env (scalars b ts)) _ e in
      let (z, ez, k) = >>=-eq-returned (evaluate v.runtime env b) _ exs in
      let (zs, ezs, k') = >>=-eq-returned (evaluate_scalars v.runtime env ts) _ k in
      absurd (cons≢nil (returned-injective k' ∙ cc (returned-injective e')))

  shape_two :
      (ts : Scalars) (y z : Option Value)
      → ReturnAll v env (y ∷ z ∷ []) ts
      → (c d : Scalar) × (ts ≡ scalars c (scalars d no_scalars))
        × (evaluate v.runtime env c ≡ returned y)
        × (evaluate v.runtime env d ≡ returned z)
  unfolding evaluate
  shape_two no_scalars y z h = absurd (nil≢cons (returned-injective h))
  shape_two (scalars a ts) y z h =
      let (x, ex, e) = >>=-eq-returned (evaluate v.runtime env a) _ h in
      let (xs, exs, e') = >>=-eq-returned (evaluate_scalars v.runtime env ts) _ e in
      let g : x ∷ xs ≡ y ∷ z ∷ [] = returned-injective e' in
      let (d, p, ed) = shape_one ts z (exs ∙ ap returned (cc)) in
      (a, d, ap (scalars a) p, ex ∙ ap returned (cc), ed)

  module _ (x : Option Bool) where
    unary_HasOperands :
        (P : Scalar → Predicate) (a : Scalar) (f : Option Value → Outcome (Option Bool))
        → ((c : Scalar) → evaluate_predicate v.runtime env (P c) ≡ (evaluate v.runtime env c >>= f))
        → operands (P a) ≡ scalars a no_scalars
        → ((c : Scalar) → with_operands (P a) (scalars c no_scalars) ≡ P c)
        → evaluate_predicate v.runtime env (P a) ≡ returned x
        → HasOperands (P a) x
    unary_HasOperands P a f run ops given h =
        let (y, ey, e) = >>=-eq-returned (evaluate v.runtime env a) f (sym (run a) ∙ h) in
        (
          y ∷ [],
          rw ops (return_one a y ey),
          λ ts k.
              let (c, p, ec) = shape_one ts y k in
              ap (λ us. evaluate_predicate v.runtime env (with_operands (P a) us)) p
              ∙ ap (evaluate_predicate v.runtime env) (given c)
              ∙ run c
              ∙ ap (λ o. o >>= f) ec
              ∙ e,
        )

    binary_HasOperands :
        (P : Scalar → Scalar → Predicate) (a b : Scalar)
        (f : Option Value → Option Value → Outcome (Option Bool))
        → ((c d : Scalar)
            → evaluate_predicate v.runtime env (P c d)
              ≡ (evaluate v.runtime env c >>= λ y. evaluate v.runtime env d >>= f y))
        → operands (P a b) ≡ scalars a (scalars b no_scalars)
        → ((c d : Scalar) → with_operands (P a b) (scalars c (scalars d no_scalars)) ≡ P c d)
        → evaluate_predicate v.runtime env (P a b) ≡ returned x
        → HasOperands (P a b) x
    binary_HasOperands P a b f run ops given h =
        let (y, ey, e) =
          >>=-eq-returned (evaluate v.runtime env a) (λ y. evaluate v.runtime env b >>= f y)
            (sym (run a b) ∙ h) in
        let (z, ez, e') = >>=-eq-returned (evaluate v.runtime env b) (f y) e in
        (
          y ∷ z ∷ [],
          rw ops (return_two a b y z ey ez),
          λ ts k.
              let (c, d, p, ec, ed) = shape_two ts y z k in
              ap (λ us. evaluate_predicate v.runtime env (with_operands (P a b) us)) p
              ∙ ap (evaluate_predicate v.runtime env) (given c d)
              ∙ run c d
              ∙ ap₂ (λ o q. o >>= λ u. q >>= f u) ec ed
              ∙ e',
        )

    has_operands :
        (p : Predicate) → evaluate_predicate v.runtime env p ≡ returned x → HasOperands p x
    unfolding operands with_operands evaluate
    has_operands (to_predicate a) h =
        unary_HasOperands to_predicate a _ (λ c. refl) refl (λ c. refl) h
    has_operands (is_null a) h = unary_HasOperands is_null a _ (λ c. refl) refl (λ c. refl) h
    has_operands (is_not_null a) h =
        unary_HasOperands is_not_null a _ (λ c. refl) refl (λ c. refl) h
    has_operands (eq3 a b) h = binary_HasOperands eq3 a b _ (λ c d. refl) refl (λ c d. refl) h
    has_operands (lt3 a b) h = binary_HasOperands lt3 a b _ (λ c d. refl) refl (λ c d. refl) h
    has_operands (like3 a b) h = binary_HasOperands like3 a b _ (λ c d. refl) refl (λ c d. refl) h
    has_operands (ilike3 a b) h = binary_HasOperands ilike3 a b _ (λ c d. refl) refl (λ c d. refl) h
    has_operands (is_not_distinct a b) h =
        binary_HasOperands is_not_distinct a b _ (λ c d. refl) refl (λ c d. refl) h
    has_operands p h = ([], refl, λ ts k. h)

module _ (v : Valuation) (env : Assignment) (ok : IsAdmissible v env)
    (truth : Predicate → Wanted → Attempt Formula) (exact : IsExactOracle v env truth)
    (p : Predicate) (o : Wanted) where
  none_alternative :
      (cs : List (Choice Scalars)) (fs : Formulas)
      → alternatives v truth p o cs ≡ done fs
      → NoneHolds v env cs
      → any_holds v.runtime env fs ≡ false
  unfolding alternatives holds
  none_alternative [] fs h n = ap (any_holds v.runtime env) (sym (done-injective h))
  none_alternative ((c, ts) ∷ cs) fs h (q, n) =
      let (f, hf, h1) = >>=-eq-done (truth (fold_predicate v (with_operands p ts)) o) _ h in
      let (gs, hg, h2) = >>=-eq-done (alternatives v truth p o cs) _ h1 in
      ap (any_holds v.runtime env) (sym (done-injective h2))
      ∙ ap₂ ◌||◌ (both-false v env c f q) (none_alternative cs gs hg n)

  picked_alternative :
      (x : Option Bool) (xs : List (Option Value)) (cs : List (Choice Scalars)) (fs : Formulas)
      → ((ts : Scalars)
          → ReturnAll v env xs ts
          → evaluate_predicate v.runtime env (with_operands p ts) ≡ returned x)
      → alternatives v truth p o cs ≡ done fs
      → Picks v env (ReturnAll v env xs) cs
      → any_holds v.runtime env fs ≡ is_outcome o x
  unfolding alternatives holds
  picked_alternative x xs [] fs same h k = absurd k
  picked_alternative x xs ((c, ts) ∷ cs) fs same h (inl (q, g, n)) =
      let (f, hf, h1) = >>=-eq-done (truth (fold_predicate v (with_operands p ts)) o) _ h in
      let (gs, hg, h2) = >>=-eq-done (alternatives v truth p o cs) _ h1 in
      ap (any_holds v.runtime env) (sym (done-injective h2))
      ∙ ap₂ ◌||◌
          (both-true v env c f (is_outcome o x) q (
            exact (fold_predicate v (with_operands p ts)) o f hf x
              (fold_predicate_sound v env ok (with_operands p ts) x (same ts g))))
          (none_alternative cs gs hg n)
      ∙ or-false (is_outcome o x)
  picked_alternative x xs ((c, ts) ∷ cs) fs same h (inr (q, k)) =
      let (f, hf, h1) = >>=-eq-done (truth (fold_predicate v (with_operands p ts)) o) _ h in
      let (gs, hg, h2) = >>=-eq-done (alternatives v truth p o cs) _ h1 in
      ap (any_holds v.runtime env) (sym (done-injective h2))
      ∙ ap₂ ◌||◌ (both-false v env c f q) (picked_alternative x xs cs gs same hg k)

  split_apart-IsExact : (f : Formula) → split_apart v truth p o ≡ done f → IsExact v env p o f
  unfolding split_apart
  split_apart-IsExact f h x e =
      let (cs, hc, h1) =
        >>=-eq-done (lift_children v truth ((known true, no_scalars) ∷ []) (operands p)) _ h in
      let (fs, hf, h2) = >>=-eq-done (alternatives v truth p o cs) _ h1 in
      let (xs, ex, same) = has_operands v env x p e in
      ap (holds v.runtime env) (sym (done-injective h2))
      ∙ holds-any_of v.runtime env fs
      ∙ picked_alternative x xs cs fs same hf (
          lift_children-Picks v env ok truth exact ((known true, no_scalars) ∷ []) (operands p) cs
            [] xs hc (first_choice v env ok truth exact) ex)

  -- Whatever formula the split gives holds exactly when the predicate has the outcome.
  pub split-IsExact : (f : Formula) → split v truth p o ≡ done f → IsExact v env p o f
  unfolding split
  split-IsExact f h =
      let (alone, ha, h1) = >>=-eq-done (nothing_lifted v truth (operands p)) _ h in into alone h1
    where
      into :
          (b : Bool)
          → (if b then unsupported else split_apart v truth p o) ≡ done f
          → IsExact v env p o f
      into true k = cc
      into false k = split_apart-IsExact f k
