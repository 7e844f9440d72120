-- ===== src/Examples/Executing.antt =====
-- Integer operations of src/parseval/symbolic/operations.py on -7 and 2.
use par_seval.Common.{◌≡◌, refl, false, Option, some, List, [], ◌∷◌, ◌%◌, if◌then◌else◌}
use par_seval.Common.Int.{pos, negsuc}
use par_seval.Scalar.Outcome.{returned}
use par_seval.Scalar.Term.{Value, int}
use par_seval.Storage.{integer}
use par_seval.Scalar.Sorts.{ScalarSort, plain_type, arithmetic, op_div, result_sort}
use par_seval.Scalar.Operations.{Policy, execute, remainder, magnitude, is_negative, negative}
use par_seval.Scalar.Operations.Typed.{HasSort, HaveSorts}
use par_seval.Scalar.Operations.Typed.Whole.{execute-HasSort}
use par_seval.Scalar.Operations.Division.{remainder_lem}

abbrev plain_policy : Policy
plain_policy = record {
  division_by_zero_is_null = false;
  lenient_conversions = false;
  case_insensitive_text = false;
  casefold = λ s. s;
  lower = λ s. s;
  upper = λ s. s;
}

abbrev integer_sort : ScalarSort
integer_sort = record { sql_type = plain_type integer; nullable = false }

-- -7 and 2
abbrev operands : List (Option Value)
operands = some (int (negsuc 6)) ∷ some (int (pos 2)) ∷ []

abbrev integer_sorts : List ScalarSort
integer_sorts = integer_sort ∷ integer_sort ∷ []

operands-HaveSorts : HaveSorts operands integer_sorts
unfolding HaveSorts
operands-HaveSorts = (refl, (refl, tt))

division_sort : result_sort (arithmetic op_div) integer_sorts ≡ some integer_sort
unfolding result_sort
division_sort = refl

divided : execute plain_policy (arithmetic op_div) operands ≡ returned (some (int (negsuc 2)))
unfolding execute
divided = refl

execute-HasSort_example : HasSort (some (int (negsuc 2))) integer_sort
execute-HasSort_example =
    execute-HasSort plain_policy (arithmetic op_div) operands integer_sorts integer_sort
      (some (int (negsuc 2))) refl operands-HaveSorts division_sort divided

remainder_lem_example : remainder (negsuc 6) (pos 2) ≡ (
    if is_negative (negsuc 6)
    then negative (magnitude (negsuc 6) % magnitude (pos 2))
    else pos (magnitude (negsuc 6) % magnitude (pos 2)))
remainder_lem_example = remainder_lem (negsuc 6) (pos 2)
