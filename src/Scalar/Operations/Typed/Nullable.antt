-- ===== src/Scalar/Operations/Typed/Nullable.antt =====
-- An operation of src/parseval/symbolic/operations.py on a nullable operand has a nullable sort.
use par_seval.Common.{
  ◌≡◌, refl, sym, ap, ◌∙◌, Bool, true, false, ◌||◌, inl, inr, arith, Option, none, some,
  Option-cases, List, [], ◌∷◌, if◌then◌else◌,
}
use mathlib.Core.Option.{some-injective}
use par_seval.Scalar.Term.{Value}
use par_seval.Storage.{boolean, StorageType}
use par_seval.Scalar.Sorts.{
  ScalarSort, op_is_not_distinct, Operation, arithmetic, comparison, op_neg, op_abs, op_and, op_or,
  op_not, null_test, op_lower, op_upper, op_length, op_substring, op_concat, text_test,
  promoted_type, arithmetic_type, is_numeric, result_sort, any_nullable, sort_if, sorted_as,
}
use par_seval.Scalar.Operations.{all_present}
use par_seval.Scalar.Operations.Typed.{HasSort, HaveSorts, is_sort_if}

-- The operations that NULL makes NULL.
abbrev pub is_strict : Operation → Bool
is_strict (null_test t) = false
is_strict (comparison op_is_not_distinct) = false
is_strict op_and = false
is_strict op_or = false
is_strict op = true

pub some_nullable :
    (args : List (Option Value)) (ss : List ScalarSort)
    → HaveSorts args ss
    → all_present args ≡ none
    → any_nullable ss ≡ true
unfolding HaveSorts HasSort all_present any_nullable
some_nullable [] [] h e = cc
some_nullable (none ∷ args) (s ∷ ss) h e = rw h.0 refl
some_nullable (some v ∷ args) (s ∷ ss) h e = elim (Option-cases (all_present args)) [
  | inl n ↦ rw (some_nullable args ss h.1 n) (ground arith)
  | inr (vs, n) ↦ cc (rw (all_present, n) at e)
]
some_nullable [] (s ∷ ss) h e = absurd h
some_nullable (a ∷ args) [] h e = absurd h

numeric-nullable :
    (b i : Bool) (t : StorageType) (s r : ScalarSort)
    → (if b
        then some (record { sql_type = t; nullable = s.nullable })
        else if i
        then some s
        else none)
      ≡ some r
    → s.nullable ≡ true
    → r.nullable ≡ true
numeric-nullable true i t s r h n = sym (ap (λ x. x.nullable) (some-injective _ _ h)) ∙ n
numeric-nullable false true t s r h n = sym (ap (λ x. x.nullable) (some-injective _ _ h)) ∙ n
numeric-nullable false false t s r h n = cc

sorted_as-nullable :
    (n : Bool) (o : Option StorageType) (r : ScalarSort) → sorted_as n o ≡ some r → r.nullable ≡ n
sorted_as-nullable n none r h = cc
sorted_as-nullable n (some t) r h = sym (ap (λ x. x.nullable) (some-injective _ _ h))

compared-nullable :
    (o : Option StorageType) (n : Bool) (r : ScalarSort)
    → (elim o as (λ _. Option ScalarSort) [ none ↦ none | some t ↦ sort_if true boolean n ])
      ≡ some r
    → r.nullable ≡ n
compared-nullable none n r h = cc
compared-nullable (some t) n r h = (is_sort_if true boolean n r h).1

or_two : (a b : Bool) → a || (b || false) ≡ true → a || b ≡ true
or_two a b h = ground arith

or_three : (a b c : Bool) → a || (b || (c || false)) ≡ true → a || (b || c) ≡ true
or_three a b c h = ground arith

or_one : (a : Bool) → a || false ≡ true → a ≡ true
or_one a h = ground arith

pub result-nullable :
    (op : Operation) (ss : List ScalarSort) (r : ScalarSort)
    → is_strict op ≡ true
    → result_sort op ss ≡ some r
    → any_nullable ss ≡ true
    → r.nullable ≡ true
unfolding result_sort any_nullable
result-nullable (arithmetic op) (s ∷ t ∷ []) r i e n =
    sorted_as-nullable _ (arithmetic_type op s.sql_type t.sql_type) r e
    ∙ or_two s.nullable t.nullable n
result-nullable (comparison op) (s ∷ t ∷ []) r i e n =
    compared-nullable (promoted_type s.sql_type t.sql_type) _ r e ∙ ground arith
result-nullable op_neg (s ∷ []) r i e n = numeric-nullable _ _ _ s r e (or_one s.nullable n)
result-nullable op_abs (s ∷ []) r i e n =
    numeric-nullable (is_numeric s.sql_type.kind) false _ s r e (or_one s.nullable n)
result-nullable op_not (s ∷ []) r i e n = (is_sort_if _ _ _ r e).1 ∙ or_one s.nullable n
result-nullable op_lower (s ∷ []) r i e n = (is_sort_if _ _ _ r e).1 ∙ or_one s.nullable n
result-nullable op_upper (s ∷ []) r i e n = (is_sort_if _ _ _ r e).1 ∙ or_one s.nullable n
result-nullable op_length (s ∷ []) r i e n = (is_sort_if _ _ _ r e).1 ∙ or_one s.nullable n
result-nullable op_substring (s ∷ t ∷ []) r i e n =
    (is_sort_if _ _ _ r e).1 ∙ or_two s.nullable t.nullable n
result-nullable op_substring (s ∷ t ∷ u ∷ []) r i e n =
    (is_sort_if _ _ _ r e).1 ∙ or_three s.nullable t.nullable u.nullable n
result-nullable op_concat (s ∷ t ∷ []) r i e n =
    (is_sort_if _ _ _ r e).1 ∙ or_two s.nullable t.nullable n
result-nullable (text_test o) (s ∷ t ∷ []) r i e n =
    (is_sort_if _ _ _ r e).1 ∙ or_two s.nullable t.nullable n
result-nullable op ss r i e n = cc
