-- ===== src/Scalar/Operations/Typed.antt =====
-- `execute` of src/parseval/symbolic/operations.py gives values of the sort that `result_sort` gives.
pub mod Present
pub mod Nullable
pub mod Whole
use par_seval.Common.{
  ℕ, ◌≡◌, refl, sym, ap, ◌∙◌, Bool, true, false, ◌||◌, Bool-cases, inl, inr, arith, Option, none,
  some, Option-cases, List, [], ◌∷◌, if◌then◌else◌,
}
use mathlib.Core.Path.{subst}
use mathlib.Core.Option.{some-injective}
use par_seval.Common.Int.{ℤ, pos, negsuc}
use par_seval.Scalar.Outcome.{Outcome, returned, failed, ◌>>=◌, returned-injective}
use par_seval.Scalar.Term.{Value, bool, int, text}
use par_seval.Scalar.Evaluate.{not_distinct, conjoin, disjoin}
use par_seval.Storage.{TypeKind, boolean, integer, string, StorageType}
use par_seval.Scalar.Sorts.{
  ScalarSort, Arithmetic, op_add, op_sub, op_mul, op_div, op_mod, op_is_not_distinct, Operation,
  arithmetic, comparison, op_neg, op_abs, op_and, op_or, op_not, null_test, op_lower, op_upper,
  op_length, op_substring, op_concat, text_test, promoted_type, arithmetic_type, special_type,
  numeric_type, is_numeric, result_sort, any_nullable, sort_if, sorted_as,
}
use par_seval.Scalar.Operations.{
  Policy, truth_value, divide, calculate, compare_with, test_text, substring_of, execute_present,
  all_present, execute_strict, execute_any, execute, boolean_value, as_boolean, test_null,
  case_matters, is_zero, truncate_division, remainder,
}

-- The kind of a value that is not NULL.
unfoldable pub kind_of : Value → TypeKind
kind_of (bool b) = boolean
kind_of (int n) = integer
kind_of (text s) = string

-- A value may have a sort: NULL if it is nullable, another value if the kinds agree.
unfoldable pub HasSort : Option Value → ScalarSort → Type 0
unfolding kind_of
HasSort none s = s.nullable ≡ true
HasSort (some v) s = kind_of v ≡ s.sql_type.kind

unfoldable pub HaveSorts : List (Option Value) → List ScalarSort → Type 0
unfolding HasSort
HaveSorts [] [] = Unit
HaveSorts (a ∷ args) (s ∷ ss) = HasSort a s × HaveSorts args ss
HaveSorts _ _ = ⊥

-- Values of the kinds of some sorts.
unfoldable pub HaveKinds : List Value → List ScalarSort → Type 0
HaveKinds [] [] = Unit
HaveKinds (v ∷ vs) (s ∷ ss) = (kind_of v ≡ s.sql_type.kind) × HaveKinds vs ss
HaveKinds _ _ = ⊥

pub is_sort_if :
    (b : Bool) (k : TypeKind) (n : Bool) (r : ScalarSort)
    → sort_if b k n ≡ some r
    → (r.sql_type.kind ≡ k) × (r.nullable ≡ n)
is_sort_if true k n r h =
    let e = some-injective _ _ h in
    (sym (ap (λ x. x.sql_type.kind) e), sym (ap (λ x. x.nullable) e))
is_sort_if false k n r h = cc

-- A computed value of a kind has every sort of that kind.
pub valued :
    (v : Value) (y : Option Value) (r : ScalarSort)
    → returned (some v) ≡ returned y
    → r.sql_type.kind ≡ kind_of v
    → HasSort y r
valued v y r h e = subst (λ z. HasSort z r) (returned-injective h) (unfold HasSort in sym e)

-- The sort of an operation on two operands that is a comparison or gives a plain kind.
pub compared-kind :
    (o : Option StorageType) (n : Bool) (r : ScalarSort)
    → (elim o as (λ _. Option ScalarSort) [ none ↦ none | some t ↦ sort_if true boolean n ])
      ≡ some r
    → r.sql_type.kind ≡ boolean
compared-kind none n r h = cc
compared-kind (some t) n r h = (is_sort_if true boolean n r h).0

pub sorted_as-type :
    (n : Bool) (o : Option StorageType) (r : ScalarSort)
    → sorted_as n o ≡ some r
    → o ≡ some r.sql_type
sorted_as-type n none r h = cc
sorted_as-type n (some t) r h = ap (λ x. some x.sql_type) (some-injective _ _ h)
