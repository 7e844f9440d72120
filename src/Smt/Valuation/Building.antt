-- ===== src/Smt/Valuation/Building.antt =====
-- The predicate constructors of `Valuation` in src/parseval/instance/valuation.py, which fold what
-- they build.
use par_seval.Common.{◌≡◌, refl, sym, ap, ◌∙◌, Bool, true, false, Option, none, some, List, [], ◌∷◌}
use par_seval.Scalar.Outcome.{returned, >>=-eq-returned, returned-injective}
use par_seval.Scalar.Term.{
  Predicate, true3, false3, not3, and3, or3, Predicates, no_predicates, predicates,
}
use par_seval.Scalar.Evaluate.{
  Assignment, conjoin, disjoin, evaluate_predicate, evaluate_predicates,
}
use par_seval.Smt.Valuation.{Valuation, fold_predicate}
use par_seval.Smt.Valuation.Laws.{IsAdmissible, fold_predicate_sound}

module _ (v : Valuation) where
  -- `_junction`, with the node that joins two or more predicates.
  unfoldable pub join_predicates : (Predicates → Predicate) → Predicate → Predicates → Predicate
  join_predicates node identity no_predicates = identity
  join_predicates node identity (predicates p no_predicates) = p
  join_predicates node identity ps = fold_predicate v (node ps)

  -- `and3`, `or3`, `not3`
  unfoldable pub conjunction_of : Predicates → Predicate
  unfolding join_predicates
  conjunction_of ps = join_predicates and3 true3 ps

  unfoldable pub disjunction_of : Predicates → Predicate
  unfolding join_predicates
  disjunction_of ps = join_predicates or3 false3 ps

  unfoldable pub negation_of : Predicate → Predicate
  negation_of p = fold_predicate v (not3 p)

conjoin-one : (x : Option Bool) → conjoin (x ∷ []) ≡ x
unfolding conjoin
conjoin-one none = refl
conjoin-one (some true) = refl
conjoin-one (some false) = refl

disjoin-one : (x : Option Bool) → disjoin (x ∷ []) ≡ x
unfolding disjoin
disjoin-one none = refl
disjoin-one (some true) = refl
disjoin-one (some false) = refl

module _ (v : Valuation) (env : Assignment) (ok : IsAdmissible v env) where
  -- Under an admissible assignment, when all predicates return outcomes, `and3` of them returns the
  -- conjunction of the outcomes.
  pub evaluate-conjunction_of :
      (ps : Predicates) (xs : List (Option Bool))
      → evaluate_predicates v.runtime env ps ≡ returned xs
      → evaluate_predicate v.runtime env (conjunction_of v ps) ≡ returned (conjoin xs)
  unfolding conjunction_of evaluate_predicate
  evaluate-conjunction_of no_predicates xs h =
      ap (λ ys. returned (conjoin ys)) (returned-injective h)
  evaluate-conjunction_of (predicates p no_predicates) xs h =
      let (x, ex, e) = >>=-eq-returned (evaluate_predicate v.runtime env p) _ h in
      ex
      ∙ ap returned (sym (conjoin-one x))
      ∙ ap (λ ys. returned (conjoin ys)) (returned-injective e)
  evaluate-conjunction_of (predicates p (predicates q ps)) xs h =
      fold_predicate_sound v env ok (and3 (predicates p (predicates q ps))) (conjoin xs) (rw h refl)

  -- Under an admissible assignment, when all predicates return outcomes, `or3` of them returns the
  -- disjunction of the outcomes.
  pub evaluate-disjunction_of :
      (ps : Predicates) (xs : List (Option Bool))
      → evaluate_predicates v.runtime env ps ≡ returned xs
      → evaluate_predicate v.runtime env (disjunction_of v ps) ≡ returned (disjoin xs)
  unfolding disjunction_of evaluate_predicate
  evaluate-disjunction_of no_predicates xs h =
      ap (λ ys. returned (disjoin ys)) (returned-injective h)
  evaluate-disjunction_of (predicates p no_predicates) xs h =
      let (x, ex, e) = >>=-eq-returned (evaluate_predicate v.runtime env p) _ h in
      ex
      ∙ ap returned (sym (disjoin-one x))
      ∙ ap (λ ys. returned (disjoin ys)) (returned-injective e)
  evaluate-disjunction_of (predicates p (predicates q ps)) xs h =
      fold_predicate_sound v env ok (or3 (predicates p (predicates q ps))) (disjoin xs) (rw h refl)
