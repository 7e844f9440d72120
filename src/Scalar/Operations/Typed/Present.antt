-- ===== src/Scalar/Operations/Typed/Present.antt =====
-- Operations of src/parseval/symbolic/operations.py on values that are not NULL keep to their sorts.
use par_seval.Common.{
  ℕ, ◌≡◌, sym, ap, Bool, true, false, ◌||◌, Bool-cases, inl, inr, Option, some, List, [], ◌∷◌,
}
use mathlib.Core.Option.{some-injective}
use par_seval.Common.Int.{ℤ, pos, negsuc}
use par_seval.Scalar.Outcome.{Outcome, returned, failed, ◌>>=◌}
use par_seval.Scalar.Term.{Value, bool, int, text}
use par_seval.Storage.{boolean, integer, string, StorageType}
use par_seval.Scalar.Sorts.{
  ScalarSort, Arithmetic, op_add, op_sub, op_mul, op_div, op_mod, Operation, arithmetic, comparison,
  op_neg, op_abs, op_not, op_lower, op_upper, op_length, op_substring, op_concat, text_test,
  promoted_type, arithmetic_type, special_type, numeric_type, is_numeric, result_sort,
}
use par_seval.Scalar.Operations.{
  Policy, truth_value, divide, calculate, compare_with, test_text, substring_of, execute_present,
  is_zero, truncate_division, remainder,
}
use par_seval.Scalar.Operations.Typed.{
  kind_of, HasSort, HaveKinds, is_sort_if, valued, compared-kind, sorted_as-type,
}

integers_type :
    (op : Arithmetic) (s t u : StorageType)
    → s.kind ≡ integer
    → t.kind ≡ integer
    → arithmetic_type op s t ≡ some u
    → u.kind ≡ integer
unfolding arithmetic_type is_numeric promoted_type numeric_type
integers_type op s t u h g e = sym (ap (λ x. x.kind) (some-injective _ _ (rw (h, g) at e)))

texts_type :
    (s t u : StorageType)
    → s.kind ≡ string
    → t.kind ≡ string
    → arithmetic_type op_add s t ≡ some u
    → u.kind ≡ string
unfolding arithmetic_type is_numeric special_type
texts_type s t u h g e = sym (ap (λ x. x.kind) (some-injective _ _ (rw (h, g) at e)))

module _ (p : Policy) (safe : p.division_by_zero_is_null ≡ false) where
  divide-int :
      (f : ℤ → ℤ → ℤ) (a b : ℤ) (y : Option Value)
      → divide p f a b ≡ returned y
      → (n : ℤ) × (returned (some (int n)) ≡ returned y)
  unfolding divide
  divide-int f a b y h = elim (Bool-cases (is_zero b)) [
    | inl e ↦ cc (rw (divide, e, safe) at h)
    | inr e ↦ (f a b, rw (divide, e) at h)
  ]

  divided :
      (f : ℤ → ℤ → ℤ) (a b : ℤ) (y : Option Value) (r : ScalarSort)
      → divide p f a b ≡ returned y
      → r.sql_type.kind ≡ integer
      → HasSort y r
  divided f a b y r h e =
      let (n, g) = divide-int f a b y h in valued (int n) y r g (unfold kind_of in e)

  -- Arithmetic on two values whose sorts it accepts.
  calculate-HasSort :
      (op : Arithmetic) (a b : Value) (s t : StorageType) (r : ScalarSort) (y : Option Value)
      → kind_of a ≡ s.kind
      → kind_of b ≡ t.kind
      → arithmetic_type op s t ≡ some r.sql_type
      → calculate p op a b ≡ returned y
      → HasSort y r
  unfolding calculate kind_of
  calculate-HasSort op_add (int a) (int b) s t r y h g e k =
      valued _ y r k (integers_type op_add s t r.sql_type (sym h) (sym g) e)
  calculate-HasSort op_add (text a) (text b) s t r y h g e k =
      valued _ y r k (texts_type s t r.sql_type (sym h) (sym g) e)
  calculate-HasSort op_sub (int a) (int b) s t r y h g e k =
      valued _ y r k (integers_type op_sub s t r.sql_type (sym h) (sym g) e)
  calculate-HasSort op_mul (int a) (int b) s t r y h g e k =
      valued _ y r k (integers_type op_mul s t r.sql_type (sym h) (sym g) e)
  calculate-HasSort op_div (int a) (int b) s t r y h g e k =
      divided truncate_division a b y r k (integers_type op_div s t r.sql_type (sym h) (sym g) e)
  calculate-HasSort op_mod (int a) (int b) s t r y h g e k =
      divided remainder a b y r k (integers_type op_mod s t r.sql_type (sym h) (sym g) e)
  calculate-HasSort op a b s t r y h g e k = cc

  pub truth-HasSort :
      (o : Outcome Bool) (y : Option Value) (r : ScalarSort)
      → (o >>= truth_value) ≡ returned y
      → r.sql_type.kind ≡ boolean
      → HasSort y r
  truth-HasSort (returned b) y r h e = valued (bool b) y r h (unfold kind_of in e)
  truth-HasSort failed y r h e = cc

  substring-text :
      (lenient : Bool) (a : List ℕ) (n m : ℤ) (y : Option Value)
      → substring_of lenient a n m ≡ returned y
      → (t : List ℕ) × (returned (some (text t)) ≡ returned y)
  unfolding substring_of
  substring-text true a n (negsuc m) y h = (_, h)
  substring-text false a n (negsuc m) y h = cc
  substring-text lenient a n (pos m) y h = (_, h)

  pub present-HasSort :
      (op : Operation) (vs : List Value) (ss : List ScalarSort) (r : ScalarSort) (y : Option Value)
      → HaveKinds vs ss
      → result_sort op ss ≡ some r
      → execute_present p op vs ≡ returned y
      → HasSort y r
  unfolding execute_present result_sort HaveKinds kind_of
  present-HasSort (arithmetic op) (a ∷ b ∷ []) (s ∷ t ∷ []) r y h e k =
      calculate-HasSort op a b s.sql_type t.sql_type r y h.0 h.1.0
        (sorted_as-type (s.nullable || t.nullable) (arithmetic_type op s.sql_type t.sql_type) r e) k
  present-HasSort (comparison op) (a ∷ b ∷ []) (s ∷ t ∷ []) r y h e k =
      truth-HasSort (compare_with op a b) y r k
        (compared-kind (promoted_type s.sql_type t.sql_type) _ r e)
  present-HasSort op_neg (int n ∷ []) (s ∷ []) r y h e k =
      valued _ y r k
        (sym (ap (λ x. x.sql_type.kind) (some-injective _ _ (rw (is_numeric, sym h.0) at e))))
  present-HasSort op_abs (int n ∷ []) (s ∷ []) r y h e k =
      valued _ y r k
        (sym (ap (λ x. x.sql_type.kind) (some-injective _ _ (rw (is_numeric, sym h.0) at e))))
  present-HasSort op_not (bool b ∷ []) (s ∷ []) r y h e k =
      valued _ y r k (is_sort_if _ boolean _ r e).0
  present-HasSort op_lower (text a ∷ []) (s ∷ []) r y h e k =
      valued _ y r k (is_sort_if _ string _ r e).0
  present-HasSort op_upper (text a ∷ []) (s ∷ []) r y h e k =
      valued _ y r k (is_sort_if _ string _ r e).0
  present-HasSort op_length (text a ∷ []) (s ∷ []) r y h e k =
      valued _ y r k (is_sort_if _ integer _ r e).0
  present-HasSort op_substring (text a ∷ int n ∷ []) (s ∷ t ∷ []) r y h e k =
      valued _ y r k (is_sort_if _ string _ r e).0
  present-HasSort op_substring (text a ∷ int n ∷ int m ∷ []) (s ∷ t ∷ u ∷ []) r y h e k =
      let (t, g) = substring-text p.lenient_conversions a n m y k in
      valued (text t) y r g (is_sort_if _ string _ r e).0
  present-HasSort op_concat (text a ∷ text b ∷ []) (s ∷ t ∷ []) r y h e k =
      valued _ y r k (is_sort_if _ string _ r e).0
  present-HasSort (text_test o) (text a ∷ text b ∷ []) (s ∷ t ∷ []) r y h e k =
      truth-HasSort (test_text o a b) y r k (is_sort_if _ boolean _ r e).0
  present-HasSort op_substring (text a ∷ int n ∷ []) (s ∷ t ∷ u ∷ ss) r y h e k = absurd h.1.1
  present-HasSort op_substring (text a ∷ int n ∷ int m ∷ []) (s ∷ t ∷ []) r y h e k = absurd h.1.1
  present-HasSort op vs ss r y h e k = cc
