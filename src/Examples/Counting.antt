-- ===== src/Examples/Counting.antt =====
-- Multiplicity terms of src/parseval/instance/valuation.py with every input at 3.
use par_seval.Common.{◌≡◌, refl, true, some, List, [], ◌∷◌, if◌then◌else◌}
use par_seval.Common.Int.{ℤ, pos, ltb_ℤ}
use par_seval.Scalar.Outcome.{returned}
use par_seval.Scalar.Term.{int, Scalar, true3, literal, parameter, case}
use par_seval.Scalar.Evaluate.{evaluate}
use par_seval.Smt.Valuation.Sums.{sum_of, zero_term, one_term, minimum, maximum, is_binary_term}
use par_seval.Smt.Valuation.Sums.Laws.{
  sum, AllEvaluate, evaluate-sum_of, evaluate-minimum, IsBit, is_binary_term-IsBit,
}
use par_seval.Examples.Searching.{open_cells, plain_runtime, all_three, all_three-IsAdmissible}

abbrev terms : List Scalar
terms = parameter 0 ∷ zero_term ∷ parameter 1 ∷ literal (int (pos 2)) ∷ []

abbrev numbers : List ℤ
numbers = pos 3 ∷ pos 0 ∷ pos 3 ∷ pos 2 ∷ []

terms-AllEvaluate : AllEvaluate open_cells all_three all_three-IsAdmissible terms numbers
unfolding AllEvaluate evaluate
terms-AllEvaluate = (refl, (refl, (refl, (refl, tt))))

evaluate-sum_of_example :
    (t : Scalar) × (sum_of open_cells terms ≡ some t)
    × (evaluate plain_runtime all_three t ≡ returned (some (int (sum numbers))))
evaluate-sum_of_example =
    evaluate-sum_of open_cells all_three all_three-IsAdmissible terms numbers terms-AllEvaluate

three : evaluate plain_runtime all_three (parameter 0) ≡ returned (some (int (pos 3)))
unfolding evaluate
three = refl

two : evaluate plain_runtime all_three (literal (int (pos 2))) ≡ returned (some (int (pos 2)))
unfolding evaluate
two = refl

evaluate-minimum_example :
    (evaluate plain_runtime all_three (minimum open_cells (parameter 0) (literal (int (pos 2))))
      ≡ returned (some (int (if ltb_ℤ (pos 3) (pos 2) then pos 3 else pos 2))))
    × (evaluate plain_runtime all_three (maximum open_cells (parameter 0) (literal (int (pos 2))))
        ≡ returned (some (int (if ltb_ℤ (pos 3) (pos 2) then pos 2 else pos 3))))
evaluate-minimum_example =
    evaluate-minimum open_cells all_three all_three-IsAdmissible (parameter 0)
      (literal (int (pos 2))) (pos 3) (pos 2) three two

abbrev bit : Scalar
bit = case true3 one_term zero_term

bit-is_binary : is_binary_term open_cells bit ≡ true
unfolding is_binary_term
bit-is_binary = refl

bit-one : evaluate plain_runtime all_three bit ≡ returned (some (int (pos 1)))
unfolding evaluate
bit-one = refl

is_binary_term-IsBit_example : IsBit (some (int (pos 1)))
is_binary_term-IsBit_example =
    is_binary_term-IsBit open_cells all_three all_three-IsAdmissible bit (some (int (pos 1)))
      bit-is_binary bit-one
