-- ===== src/Scalar/Operations/Typed/Whole.antt =====
-- `execute` of src/parseval/symbolic/operations.py gives values of the sort that `result_sort` gives.
use par_seval.Common.{
  ◌≡◌, refl, ◌∙◌, Bool, true, false, ◌||◌, Bool-cases, inl, inr, arith, Option, none, some,
  Option-cases, List, [], ◌∷◌,
}
use mathlib.Core.Path.{subst}
use mathlib.Core.Option.{some-injective}
use par_seval.Scalar.Outcome.{returned, ◌>>=◌, returned-injective}
use par_seval.Scalar.Term.{Value, bool}
use par_seval.Scalar.Evaluate.{not_distinct, conjoin, disjoin}
use par_seval.Storage.{boolean}
use par_seval.Scalar.Sorts.{
  ScalarSort, op_is_not_distinct, Operation, comparison, op_and, op_or, null_test, promoted_type,
  result_sort,
}
use par_seval.Scalar.Operations.{
  Policy, all_present, execute_strict, execute_any, execute, boolean_value, as_boolean, test_null,
  case_matters,
}
use par_seval.Scalar.Operations.Typed.{
  kind_of, HasSort, HaveSorts, HaveKinds, is_sort_if, valued, compared-kind,
}
use par_seval.Scalar.Operations.Typed.Present.{present-HasSort}
use par_seval.Scalar.Operations.Typed.Nullable.{is_strict, some_nullable, result-nullable}

module _ (p : Policy) (safe : p.division_by_zero_is_null ≡ false) where
  present-HaveKinds :
      (args : List (Option Value)) (ss : List ScalarSort) (vs : List Value)
      → HaveSorts args ss
      → all_present args ≡ some vs
      → HaveKinds vs ss
  unfolding HaveSorts HasSort all_present HaveKinds
  present-HaveKinds [] [] vs h e =
      subst (λ ws. HaveKinds ws []) (some-injective _ _ e) (unfold HaveKinds in tt)
  present-HaveKinds (none ∷ args) (s ∷ ss) vs h e = cc
  present-HaveKinds (some v ∷ args) (s ∷ ss) vs h e = elim (Option-cases (all_present args)) [
    | inl n ↦ cc (rw (all_present, n) at e)
    | inr (ws, n) ↦
        subst (λ us. HaveKinds us (s ∷ ss)) (some-injective _ _ (rw (all_present, n) at e))
          (h.0, present-HaveKinds args ss ws h.1 n)
  ]
  present-HaveKinds [] (s ∷ ss) vs h e = absurd h
  present-HaveKinds (a ∷ args) [] vs h e = absurd h

  strict-HasSort :
      (op : Operation) (args : List (Option Value)) (ss : List ScalarSort) (r : ScalarSort)
      (y : Option Value)
      → is_strict op ≡ true
      → HaveSorts args ss
      → result_sort op ss ≡ some r
      → execute_strict p op args ≡ returned y
      → HasSort y r
  unfolding execute_strict
  strict-HasSort op args ss r y i h e k = elim (Option-cases (all_present args)) [
    | inl n ↦
        subst (λ z. HasSort z r) (returned-injective (rw (execute_strict, n) at k))
          (unfold HasSort in result-nullable op ss r i e (some_nullable args ss h n))
    | inr (vs, n) ↦
        present-HasSort p safe op vs ss r y (present-HaveKinds args ss vs h n) e
          (rw (execute_strict, n) at k)
  ]

  truth-value-HasSort :
      (o : Option Bool) (y : Option Value) (r : ScalarSort)
      → returned (boolean_value o) ≡ returned y
      → r.sql_type.kind ≡ boolean
      → (o ≡ none → r.nullable ≡ true)
      → HasSort y r
  truth-value-HasSort none y r h e n =
      subst (λ z. HasSort z r) (returned-injective h) (unfold HasSort in n refl)
  truth-value-HasSort (some b) y r h e n = valued (bool b) y r h (unfold kind_of in e)

  -- AND and OR of two Booleans that are not NULL are not NULL.
  abbrev IsDecided : (List (Option Bool) → Option Bool) → Type 0
  IsDecided f = (x z : Bool) → f (some x ∷ some z ∷ []) ≡ none → ⊥

  conjoin-IsDecided : IsDecided conjoin
  unfolding conjoin
  conjoin-IsDecided true true h = cc
  conjoin-IsDecided true false h = cc
  conjoin-IsDecided false true h = cc
  conjoin-IsDecided false false h = cc

  disjoin-IsDecided : IsDecided disjoin
  unfolding disjoin
  disjoin-IsDecided true true h = cc
  disjoin-IsDecided true false h = cc
  disjoin-IsDecided false true h = cc
  disjoin-IsDecided false false h = cc

  joined-HasSort :
      (f : List (Option Bool) → Option Bool) (a b : Option Value) (s t r : ScalarSort)
      (y : Option Value)
      → IsDecided f
      → HasSort a s
      → HasSort b t
      → r.sql_type.kind ≡ boolean
      → r.nullable ≡ s.nullable || t.nullable
      → (as_boolean a >>= λ x. as_boolean b >>= λ z. returned (boolean_value (f (x ∷ z ∷ []))))
        ≡ returned y
      → HasSort y r
  unfolding as_boolean HasSort
  joined-HasSort f none none s t r y d h g e n k =
      truth-value-HasSort (f (none ∷ none ∷ [])) y r k e (λ _. n ∙ rw h refl)
  joined-HasSort f none (some (bool z)) s t r y d h g e n k =
      truth-value-HasSort (f (none ∷ some z ∷ [])) y r k e (λ _. n ∙ rw h refl)
  joined-HasSort f (some (bool x)) none s t r y d h g e n k =
      truth-value-HasSort (f (some x ∷ none ∷ [])) y r k e (λ _. n ∙ rw g (ground arith))
  joined-HasSort f (some (bool x)) (some (bool z)) s t r y d h g e n k =
      truth-value-HasSort (f (some x ∷ some z ∷ [])) y r k e (λ q. absurd (d x z q))
  joined-HasSort f a b s t r y d h g e n k = cc

  any-HasSort :
      (op : Operation) (args : List (Option Value)) (ss : List ScalarSort) (r : ScalarSort)
      (y : Option Value)
      → HaveSorts args ss
      → result_sort op ss ≡ some r
      → execute_any p op args ≡ returned y
      → HasSort y r
  unfolding execute_any result_sort HaveSorts
  any-HasSort (null_test o) (a ∷ []) (s ∷ []) r y h e k =
      valued (bool (test_null o a)) y r k (is_sort_if _ boolean _ r e).0
  any-HasSort (comparison op_is_not_distinct) (a ∷ b ∷ []) (s ∷ t ∷ []) r y h e k =
      valued (bool (not_distinct a b)) y r k
        (compared-kind (promoted_type s.sql_type t.sql_type) _ r e)
  any-HasSort op_and (a ∷ b ∷ []) (s ∷ t ∷ []) r y h e k =
      let q = is_sort_if _ boolean _ r e in
      joined-HasSort conjoin a b s t r y conjoin-IsDecided h.0 h.1.0 q.0 q.1 k
  any-HasSort op_or (a ∷ b ∷ []) (s ∷ t ∷ []) r y h e k =
      let q = is_sort_if _ boolean _ r e in
      joined-HasSort disjoin a b s t r y disjoin-IsDecided h.0 h.1.0 q.0 q.1 k
  any-HasSort (null_test o) [] (s ∷ []) r y h e k = absurd h
  any-HasSort (null_test o) (a ∷ b ∷ args) (s ∷ []) r y h e k = absurd h.1
  any-HasSort (null_test o) args ss r y h e k = cc
  any-HasSort (comparison op_is_not_distinct) [] (s ∷ t ∷ []) r y h e k = absurd h
  any-HasSort (comparison op_is_not_distinct) (a ∷ []) (s ∷ t ∷ []) r y h e k = absurd h.1
  any-HasSort (comparison op_is_not_distinct) (a ∷ b ∷ c ∷ args) (s ∷ t ∷ []) r y h e k =
      absurd h.1.1
  any-HasSort (comparison op_is_not_distinct) args ss r y h e k = cc
  any-HasSort op_and [] (s ∷ t ∷ []) r y h e k = absurd h
  any-HasSort op_and (a ∷ []) (s ∷ t ∷ []) r y h e k = absurd h.1
  any-HasSort op_and (a ∷ b ∷ c ∷ args) (s ∷ t ∷ []) r y h e k = absurd h.1.1
  any-HasSort op_and args ss r y h e k = cc
  any-HasSort op_or [] (s ∷ t ∷ []) r y h e k = absurd h
  any-HasSort op_or (a ∷ []) (s ∷ t ∷ []) r y h e k = absurd h.1
  any-HasSort op_or (a ∷ b ∷ c ∷ args) (s ∷ t ∷ []) r y h e k = absurd h.1.1
  any-HasSort op_or args ss r y h e k = cc
  any-HasSort op args ss r y h e k = strict-HasSort op args ss r y refl h e k

-- Unless division by zero gives NULL, what `execute` returns on values of some sorts has the sort that
-- `result_sort` gives for these: its kind, and it is NULL only if the sort is nullable.
pub execute-HasSort :
    (p : Policy) (op : Operation) (args : List (Option Value)) (ss : List ScalarSort)
    (r : ScalarSort) (y : Option Value)
    → p.division_by_zero_is_null ≡ false
    → HaveSorts args ss
    → result_sort op ss ≡ some r
    → execute p op args ≡ returned y
    → HasSort y r
unfolding execute
execute-HasSort p op args ss r y safe h e k = elim (Bool-cases (case_matters p op args)) [
  | inl m ↦ cc (rw (execute, m) at k)
  | inr m ↦ any-HasSort p safe op args ss r y h e (rw (execute, m) at k)
]
