-- ===== src/Smt/Normalizer/Exact/Junctions.antt =====
-- AND and OR in `Normalizer._truth` of src/parseval/smt/csp.py.
use par_seval.Common.{
  ◌≡◌, refl, sym, ap, ap₂, ◌∙◌, Bool, true, false, not, ◌&&◌, ◌||◌, arith, Option, none, some, List,
  [], ◌∷◌,
}
use mathlib.Core.Path.{subst}
use par_seval.Scalar.Outcome.{returned, >>=-eq-returned, returned-injective}
use par_seval.Scalar.Term.{Predicate, Predicates, no_predicates, predicates}
use par_seval.Scalar.Evaluate.{
  Assignment, has, conjoin, disjoin, evaluate_predicate, evaluate_predicates,
}
use par_seval.Smt.Formula.{Formula, Formulas, formulas, all_of, any_of, holds, all_hold, any_holds}
use par_seval.Smt.Formula.Laws.{holds-all_of, holds-any_of, holds-either}
use par_seval.Smt.Valuation.{Valuation}
use par_seval.Smt.Normalizer.Attempt.{
  Attempt, done, >>=-eq-done, done-injective, Wanted, want_true, want_false, want_unknown,
  is_outcome,
}
use par_seval.Smt.Normalizer.Weights.Positive.{IsExactOracle}
use par_seval.Smt.Normalizer.Truth.{Part, whens, not_weak, junction, parts}

-- The outcome as a value.
abbrev value_of_outcome : Wanted → Option Bool
value_of_outcome want_true = some true
value_of_outcome want_false = some false
value_of_outcome want_unknown = none

has-cons :
    (o : Wanted) (x : Option Bool) (xs : List (Option Bool))
    → has (value_of_outcome o) (x ∷ xs) ≡ is_outcome o x || has (value_of_outcome o) xs
unfolding has is_outcome
has-cons want_true none xs = refl
has-cons want_true (some true) xs = refl
has-cons want_true (some false) xs = refl
has-cons want_false none xs = refl
has-cons want_false (some true) xs = refl
has-cons want_false (some false) xs = refl
has-cons want_unknown none xs = refl
has-cons want_unknown (some true) xs = refl
has-cons want_unknown (some false) xs = refl

outcome-conjoin-false :
    (xs : List (Option Bool)) → is_outcome want_false (conjoin xs) ≡ has (some false) xs
unfolding conjoin is_outcome
outcome-conjoin-false xs = ground arith

outcome-conjoin-unknown :
    (xs : List (Option Bool))
    → is_outcome want_unknown (conjoin xs) ≡ has none xs && not (has (some false) xs)
unfolding conjoin is_outcome
outcome-conjoin-unknown xs = ground arith

outcome-conjoin-true :
    (xs : List (Option Bool))
    → is_outcome want_true (conjoin xs) ≡ not (has (some false) xs) && not (has none xs)
unfolding conjoin is_outcome
outcome-conjoin-true xs = ground arith

outcome-disjoin-true :
    (xs : List (Option Bool)) → is_outcome want_true (disjoin xs) ≡ has (some true) xs
unfolding disjoin is_outcome
outcome-disjoin-true xs = ground arith

outcome-disjoin-unknown :
    (xs : List (Option Bool))
    → is_outcome want_unknown (disjoin xs) ≡ has none xs && not (has (some true) xs)
unfolding disjoin is_outcome
outcome-disjoin-unknown xs = ground arith

outcome-disjoin-false :
    (xs : List (Option Bool))
    → is_outcome want_false (disjoin xs) ≡ not (has (some true) xs) && not (has none xs)
unfolding disjoin is_outcome
outcome-disjoin-false xs = ground arith

-- One outcome excludes the others.
not-false :
    (x : Option Bool)
    → is_outcome want_true x || is_outcome want_unknown x ≡ not (is_outcome want_false x)
unfolding is_outcome
not-false none = refl
not-false (some true) = refl
not-false (some false) = refl

not-true :
    (x : Option Bool)
    → is_outcome want_false x || is_outcome want_unknown x ≡ not (is_outcome want_true x)
unfolding is_outcome
not-true none = refl
not-true (some true) = refl
not-true (some false) = refl

only-true :
    (x : Option Bool)
    → is_outcome want_true x ≡ not (is_outcome want_false x) && not (is_outcome want_unknown x)
unfolding is_outcome
only-true none = refl
only-true (some true) = refl
only-true (some false) = refl

only-false :
    (x : Option Bool)
    → is_outcome want_false x ≡ not (is_outcome want_true x) && not (is_outcome want_unknown x)
unfolding is_outcome
only-false none = refl
only-false (some true) = refl
only-false (some false) = refl

module _ (v : Valuation) (env : Assignment) where
  abbrev Says : Part → Option Bool → Type 0
  Says p x =
      (holds v.runtime env p.when_true ≡ is_outcome want_true x)
      × (holds v.runtime env p.when_false ≡ is_outcome want_false x)
      × (holds v.runtime env p.when_unknown ≡ is_outcome want_unknown x)

  abbrev pub AllSay : List Part → List (Option Bool) → Type 0
  AllSay [] [] = Unit
  AllSay (p ∷ ps) (x ∷ xs) = Says p x × AllSay ps xs
  AllSay _ _ = ⊥

  pub parts-AllSay :
      (truth : Predicate → Wanted → Attempt Formula)
      → IsExactOracle v env truth
      → (ps : Predicates) (qs : List Part) (xs : List (Option Bool)) → parts v truth ps ≡ done qs
      → evaluate_predicates v.runtime env ps ≡ returned xs
      → AllSay qs xs
  unfolding parts evaluate_predicate
  parts-AllSay truth exact no_predicates qs xs h e =
      subst (λ q. AllSay q xs) (done-injective h)
        (subst (λ x. AllSay [] x) (returned-injective e) tt)
  parts-AllSay truth exact (predicates p ps) qs xs h e =
      let (t, ht, h1) = >>=-eq-done (truth p want_true) _ h in
      let (f, hf, h2) = >>=-eq-done (truth p want_false) _ h1 in
      let (u, hu, h3) = >>=-eq-done (truth p want_unknown) _ h2 in
      let (rest, hr, h4) = >>=-eq-done (parts v truth ps) _ h3 in
      let (x, ex, e1) = >>=-eq-returned (evaluate_predicate v.runtime env p) _ e in
      let (ys, ey, e2) = >>=-eq-returned (evaluate_predicates v.runtime env ps) _ e1 in
      subst (λ q. AllSay q xs) (done-injective h4)
        (subst (λ x. AllSay (record { when_true = t; when_false = f; when_unknown = u } ∷ rest) x)
          (returned-injective e2)
          (
            (
              exact p want_true t ht x ex,
              exact p want_false f hf x ex,
              exact p want_unknown u hu x ex,
            ),
            parts-AllSay truth exact ps rest ys hr ey,
          ))

  said :
      (o : Wanted) (p : Part) (ps : List Part) (x : Option Bool)
      → Says p x
      → (f : Formula) × (whens o (p ∷ ps) ≡ formulas f (whens o ps))
        × (holds v.runtime env f ≡ is_outcome o x)
  unfolding whens
  said want_true p ps x s = (p.when_true, refl, s.0)
  said want_false p ps x s = (p.when_false, refl, s.1)
  said want_unknown p ps x s = (p.when_unknown, refl, s.2)

  any-whens-nil : (o : Wanted) → any_holds v.runtime env (whens o []) ≡ has (value_of_outcome o) []
  unfolding whens holds has
  any-whens-nil want_true = refl
  any-whens-nil want_false = refl
  any-whens-nil want_unknown = refl

  any-formulas :
      (f : Formula) (fs : Formulas)
      → any_holds v.runtime env (formulas f fs)
        ≡ holds v.runtime env f || any_holds v.runtime env fs
  unfolding holds
  any-formulas f fs = refl

  any-whens :
      (o : Wanted) (ps : List Part) (xs : List (Option Bool))
      → AllSay ps xs
      → any_holds v.runtime env (whens o ps) ≡ has (value_of_outcome o) xs
  any-whens o [] [] s = any-whens-nil o
  any-whens o (p ∷ ps) (x ∷ xs) (s, ss) =
      let (f, e, g) = said o p ps x s in
      ap (any_holds v.runtime env) e
      ∙ any-formulas f (whens o ps)
      ∙ ap₂ ◌||◌ g (any-whens o ps xs ss)
      ∙ sym (has-cons o x xs)
  any-whens o [] (x ∷ xs) s = absurd s
  any-whens o (p ∷ ps) [] s = absurd s

  all-whens-true :
      (ps : List Part) (xs : List (Option Bool))
      → AllSay ps xs
      → all_hold v.runtime env (whens want_true ps) ≡ not (has (some false) xs) && not (has none xs)
  unfolding whens holds
  all-whens-true [] [] s = unfold has in refl
  all-whens-true (p ∷ ps) (x ∷ xs) (s, ss) =
      rw
        (
          s.0,
          all-whens-true ps xs ss,
          has-cons want_false x xs,
          has-cons want_unknown x xs,
          only-true x,
        )
        (ground arith)
  all-whens-true [] (x ∷ xs) s = absurd s
  all-whens-true (p ∷ ps) [] s = absurd s

  all-whens-false :
      (ps : List Part) (xs : List (Option Bool))
      → AllSay ps xs
      → all_hold v.runtime env (whens want_false ps) ≡ not (has (some true) xs) && not (has none xs)
  unfolding whens holds
  all-whens-false [] [] s = unfold has in refl
  all-whens-false (p ∷ ps) (x ∷ xs) (s, ss) =
      rw
        (
          s.1,
          all-whens-false ps xs ss,
          has-cons want_true x xs,
          has-cons want_unknown x xs,
          only-false x,
        )
        (ground arith)
  all-whens-false [] (x ∷ xs) s = absurd s
  all-whens-false (p ∷ ps) [] s = absurd s

  all-not_weak-true :
      (ps : List Part) (xs : List (Option Bool))
      → AllSay ps xs
      → all_hold v.runtime env (not_weak want_true ps) ≡ not (has (some false) xs)
  unfolding not_weak holds
  all-not_weak-true [] [] s = unfold has in refl
  all-not_weak-true (p ∷ ps) (x ∷ xs) (s, ss) =
      rw
        (
          holds-either v.runtime env p.when_true p.when_unknown,
          s.0,
          s.2,
          not-false x,
          all-not_weak-true ps xs ss,
          has-cons want_false x xs,
        )
        (ground arith)
  all-not_weak-true [] (x ∷ xs) s = absurd s
  all-not_weak-true (p ∷ ps) [] s = absurd s

  all-not_weak-false :
      (ps : List Part) (xs : List (Option Bool))
      → AllSay ps xs
      → all_hold v.runtime env (not_weak want_false ps) ≡ not (has (some true) xs)
  unfolding not_weak holds
  all-not_weak-false [] [] s = unfold has in refl
  all-not_weak-false (p ∷ ps) (x ∷ xs) (s, ss) =
      rw
        (
          holds-either v.runtime env p.when_false p.when_unknown,
          s.1,
          s.2,
          not-true x,
          all-not_weak-false ps xs ss,
          has-cons want_true x xs,
        )
        (ground arith)
  all-not_weak-false [] (x ∷ xs) s = absurd s
  all-not_weak-false (p ∷ ps) [] s = absurd s

  weakest :
      (strong : Wanted) (ps : List Part) (xs : List (Option Bool)) (b : Bool)
      → AllSay ps xs
      → all_hold v.runtime env (not_weak strong ps) ≡ b
      → holds v.runtime env
          (all_of (formulas (any_of (whens want_unknown ps)) (not_weak strong ps)))
        ≡ has none xs && b
  weakest strong ps xs b s h =
      holds-all_of v.runtime env (formulas (any_of (whens want_unknown ps)) (not_weak strong ps))
      ∙ unfold holds in
        (ap₂ ◌&&◌
          (holds-any_of v.runtime env (whens want_unknown ps) ∙ any-whens want_unknown ps xs s) h)

  pub and-exact :
      (o : Wanted) (ps : List Part) (xs : List (Option Bool))
      → AllSay ps xs
      → holds v.runtime env (junction want_true o ps) ≡ is_outcome o (conjoin xs)
  unfolding junction
  and-exact want_true ps xs s =
      holds-all_of v.runtime env (whens want_true ps)
      ∙ all-whens-true ps xs s
      ∙ sym (outcome-conjoin-true xs)
  and-exact want_false ps xs s =
      holds-any_of v.runtime env (whens want_false ps)
      ∙ any-whens want_false ps xs s
      ∙ sym (outcome-conjoin-false xs)
  and-exact want_unknown ps xs s =
      weakest want_true ps xs _ s (all-not_weak-true ps xs s) ∙ sym (outcome-conjoin-unknown xs)

  pub or-exact :
      (o : Wanted) (ps : List Part) (xs : List (Option Bool))
      → AllSay ps xs
      → holds v.runtime env (junction want_false o ps) ≡ is_outcome o (disjoin xs)
  unfolding junction
  or-exact want_true ps xs s =
      holds-any_of v.runtime env (whens want_true ps)
      ∙ any-whens want_true ps xs s
      ∙ sym (outcome-disjoin-true xs)
  or-exact want_false ps xs s =
      holds-all_of v.runtime env (whens want_false ps)
      ∙ all-whens-false ps xs s
      ∙ sym (outcome-disjoin-false xs)
  or-exact want_unknown ps xs s =
      weakest want_false ps xs _ s (all-not_weak-false ps xs s) ∙ sym (outcome-disjoin-unknown xs)
