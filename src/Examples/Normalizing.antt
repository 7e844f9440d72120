-- ===== src/Examples/Normalizing.antt =====
-- Formulas of src/parseval/smt/csp.py for `x < 5 OR NOT y IS NULL`, and folding of a closed
-- predicate (src/parseval/instance/valuation.py).
use par_seval.Common.{ℕ, zero, suc, ◌≡◌, refl, true, false, none, some, [], ltb}
use par_seval.Common.Int.{pos}
use par_seval.Scalar.Outcome.{returned, failed}
use par_seval.Scalar.Term.{
  int, Predicate, lt3, is_null, not3, or3, no_predicates, predicates, literal, parameter,
}
use par_seval.Scalar.Evaluate.{Runtime, Assignment, evaluate_predicate, evaluate, less}
use par_seval.Smt.Formula.{Formula, known, atom, no_formulas, formulas, Formulas, ge, holds, all_of}
use par_seval.Smt.Formula.{is_null as is_null_atom}
use par_seval.Smt.Valuation.{Valuation, is_excluded, is_open_predicate, value_of, fold_predicate}
use par_seval.Common.{◌∷◌}
use par_seval.Scalar.Term.{Predicates}
use par_seval.Scalar.Evaluate.{evaluate_predicates, conjoin}
use par_seval.Smt.Valuation.Building.{conjunction_of, evaluate-conjunction_of}
use par_seval.Smt.Valuation.Laws.{IsAdmissible, fold_predicate_sound, evaluate_closed_predicate}
use par_seval.Smt.Normalizer.Attempt.{done, want_false, is_outcome}
use par_seval.Smt.Normalizer.Truth.{truth}
use par_seval.Smt.Normalizer.Exact.Whole.{truth-exact}

abbrev plain_runtime : Runtime
plain_runtime = record { scalar = λ f args. failed; case_insensitive = false; casefold = λ t. t }

-- Inputs 0 and 1 are open, input 2 is stored, and nothing is a key.
abbrev two_cells : Valuation
two_cells = record {
  runtime = plain_runtime;
  is_open_input = λ x. ltb x 2;
  is_binary = λ x. false;
  stored = λ x. none;
  excluded = λ x. [];
}

abbrev three_and_null : Assignment
three_and_null zero = some (int (pos 3))
three_and_null (suc x) = none

three_and_null-IsAdmissible : IsAdmissible two_cells three_and_null
unfolding is_excluded
three_and_null-IsAdmissible = record {
  closed = closed_cell;
  binary = λ x h. cc;
  fresh = λ x c h. cc;
}
  where
    closed_cell : (x : ℕ) → ltb x 2 ≡ false → three_and_null x ≡ none
    closed_cell zero h = cc
    closed_cell (suc x) h = refl

abbrev below_or_null : Predicate
below_or_null = or3 (
    predicates (lt3 (parameter 0) (literal (int (pos 5))))
      (predicates (not3 (is_null (parameter 1))) no_predicates))

abbrev below_or_null_false : Formula
below_or_null_false =
    all_of (formulas (atom 0 (ge (int (pos 5)))) (formulas (atom 1 is_null_atom) no_formulas))

normalized : truth two_cells 4 below_or_null want_false ≡ done below_or_null_false
unfolding truth is_open_predicate evaluate
normalized = refl

evaluated : evaluate_predicate plain_runtime three_and_null below_or_null ≡ returned (some true)
unfolding evaluate_predicate less
evaluated = refl

truth-exact_example :
    holds plain_runtime three_and_null below_or_null_false ≡ is_outcome want_false (some true)
truth-exact_example =
    truth-exact two_cells three_and_null three_and_null-IsAdmissible 4 below_or_null want_false
      below_or_null_false (some true) normalized evaluated

abbrev five_below_six : Predicate
five_below_six = lt3 (literal (int (pos 5))) (literal (int (pos 6)))

five_is_below_six :
    evaluate_predicate plain_runtime three_and_null five_below_six ≡ returned (some true)
unfolding evaluate_predicate less
five_is_below_six = refl

fold_predicate_sound_example :
    evaluate_predicate plain_runtime three_and_null (fold_predicate two_cells five_below_six)
    ≡ returned (some true)
fold_predicate_sound_example =
    fold_predicate_sound two_cells three_and_null three_and_null-IsAdmissible five_below_six
      (some true) five_is_below_six

five_below_six-closed : is_open_predicate two_cells five_below_six ≡ false
unfolding is_open_predicate
five_below_six-closed = refl

evaluate_closed_predicate_example :
    evaluate_predicate plain_runtime three_and_null five_below_six
    ≡ value_of two_cells five_below_six
evaluate_closed_predicate_example =
    evaluate_closed_predicate two_cells three_and_null three_and_null-IsAdmissible five_below_six
      five_below_six-closed

abbrev three_formulas : Formulas
three_formulas =
    formulas (known true)
      (formulas (atom 0 (ge (int (pos 5)))) (formulas (known false) no_formulas))

abbrev two_predicates : Predicates
two_predicates = predicates five_below_six (predicates (not3 (is_null (parameter 1))) no_predicates)

two_outcomes :
    evaluate_predicates plain_runtime three_and_null two_predicates
    ≡ returned (some true ∷ some false ∷ [])
unfolding evaluate_predicates less
two_outcomes = refl

evaluate-conjunction_of_example :
    evaluate_predicate plain_runtime three_and_null (conjunction_of two_cells two_predicates)
    ≡ returned (conjoin (some true ∷ some false ∷ []))
evaluate-conjunction_of_example =
    evaluate-conjunction_of two_cells three_and_null three_and_null-IsAdmissible two_predicates
      (some true ∷ some false ∷ []) two_outcomes
