-- ===== src/Scalar/Operations.antt =====
-- src/parseval/symbolic/operations.py: `execute` on Booleans, integers and texts.
pub mod Typed
pub mod Division
use par_seval.Common.{
  ℕ, zero, suc, ◌+◌, ◌-◌, ◌/◌, Bool, true, false, not, ◌&&◌, ◌||◌, Option, none, some, List, [],
  ◌∷◌, ◌++◌, if◌then◌else◌, ◌==◌, ltb, length, take, drop, reverse,
}
use par_seval.Common.Int.{ℤ, pos, negsuc, ◌+ℤ◌, ◌-ℤ◌, ◌*ℤ◌, ltb_ℤ}
use par_seval.Scalar.Outcome.{Outcome, returned, failed, ◌>>=◌}
use par_seval.Scalar.Term.{Value, bool, int, text}
use par_seval.Scalar.Evaluate.{same_value, less, not_distinct, is_none, conjoin, disjoin}
use par_seval.Scalar.Like.{like}
use par_seval.Scalar.Sorts.{
  Arithmetic, op_add, op_sub, op_mul, op_div, op_mod, Compared, op_eq, op_ne, op_lt, op_le, op_gt,
  op_ge, op_is_not_distinct, NullTest, op_is_null, op_is_not_null, op_is_true, op_is_false,
  op_is_unknown, TextTest, op_like, op_ilike, op_contains, op_startswith, op_endswith, Operation,
  arithmetic, comparison, op_neg, op_abs, op_and, op_or, op_not, null_test, op_lower, op_upper,
  op_length, op_substring, op_concat, text_test,
}

-- The fields of `Semantics` that `execute` reads, with Python's methods on texts.
pub record Policy : Type 0 where
  pub division_by_zero_is_null : Bool
  pub lenient_conversions : Bool
  pub case_insensitive_text : Bool
  pub casefold : List ℕ → List ℕ
  pub lower : List ℕ → List ℕ
  pub upper : List ℕ → List ℕ

abbrev pub magnitude : ℤ → ℕ
magnitude (pos n) = n
magnitude (negsuc n) = suc n

abbrev pub is_negative : ℤ → Bool
is_negative (pos n) = false
is_negative (negsuc n) = true

-- `-n`
abbrev pub negative : ℕ → ℤ
negative zero = pos 0
negative (suc n) = negsuc n

unfoldable pub is_zero : ℤ → Bool
is_zero (pos zero) = true
is_zero n = false

abbrev pub differ : Bool → Bool → Bool
differ true b = not b
differ false b = b

-- `_truncate_division` by a number other than zero.
unfoldable pub truncate_division : ℤ → ℤ → ℤ
truncate_division a b =
    if differ (is_negative a) (is_negative b)
    then negative (magnitude a / magnitude b)
    else pos (magnitude a / magnitude b)

-- `args[0] - _truncate_division(*args) * args[1]`
unfoldable pub remainder : ℤ → ℤ → ℤ
unfolding truncate_division ◌-ℤ◌ ◌*ℤ◌
remainder a b = a -ℤ truncate_division a b *ℤ b

-- `max(n, 0)`
abbrev pub clamp : ℤ → ℕ
clamp (pos n) = n
clamp (negsuc n) = 0

-- `text[begin:end]`
abbrev pub slice : ℕ → ℕ → List ℕ → List ℕ
slice begin end_index s = drop begin (take end_index s)

-- `substring` with a length.
unfoldable pub substring_of : Bool → List ℕ → ℤ → ℤ → Outcome (Option Value)
unfolding ◌+ℤ◌ ◌-ℤ◌
substring_of lenient s start len =
    let before = start -ℤ pos 1 in
    if is_negative len
    then if lenient
      then returned (some (text (slice (clamp (before +ℤ len)) (clamp before) s)))
      else failed
    else returned (some (text (slice (clamp before) (clamp (before +ℤ len)) s)))

unfoldable pub has_prefix : List ℕ → List ℕ → Bool
has_prefix s [] = true
has_prefix [] (p ∷ ps) = false
has_prefix (c ∷ s) (p ∷ ps) = c == p && has_prefix s ps

-- `b in a`
unfoldable pub has_infix : List ℕ → List ℕ → Bool
unfolding has_prefix
has_infix [] p = has_prefix [] p
has_infix (c ∷ s) p = has_prefix (c ∷ s) p || has_infix s p

-- `a.endswith(b)`
unfoldable pub has_suffix : List ℕ → List ℕ → Bool
unfolding has_prefix
has_suffix s p = has_prefix (reverse s) (reverse p)

abbrev pub truth_value : Bool → Outcome (Option Value)
truth_value b = returned (some (bool b))

-- `_OPERATORS` on comparisons.
unfoldable pub compare_with : Compared → Value → Value → Outcome Bool
unfolding same_value less
compare_with op_eq a b = returned (same_value a b)
compare_with op_is_not_distinct a b = returned (same_value a b)
compare_with op_ne a b = returned (not (same_value a b))
compare_with op_lt a b = less a b
compare_with op_gt a b = less b a
compare_with op_le a b = less b a >>= λ x. returned (not x)
compare_with op_ge a b = less a b >>= λ x. returned (not x)

unfoldable pub test_text : TextTest → List ℕ → List ℕ → Outcome Bool
unfolding has_prefix has_infix has_suffix
test_text op_like s p = like false s p
test_text op_ilike s p = like true s p
test_text op_contains s p = returned (has_infix s p)
test_text op_startswith s p = returned (has_prefix s p)
test_text op_endswith s p = returned (has_suffix s p)

-- Division of two integers, whose result is an INTEGER.
unfoldable pub divide : Policy → (ℤ → ℤ → ℤ) → ℤ → ℤ → Outcome (Option Value)
unfolding is_zero
divide p f a b =
    if is_zero b
    then if p.division_by_zero_is_null then returned none else failed
    else returned (some (int (f a b)))

unfoldable pub calculate : Policy → Arithmetic → Value → Value → Outcome (Option Value)
unfolding divide truncate_division remainder ◌+ℤ◌ ◌-ℤ◌ ◌*ℤ◌
calculate p op_add (int a) (int b) = returned (some (int (a +ℤ b)))
calculate p op_add (text a) (text b) = returned (some (text (a ++ b)))
calculate p op_sub (int a) (int b) = returned (some (int (a -ℤ b)))
calculate p op_mul (int a) (int b) = returned (some (int (a *ℤ b)))
calculate p op_div (int a) (int b) = divide p truncate_division a b
calculate p op_mod (int a) (int b) = divide p remainder a b
calculate p op a b = failed

-- The operations that NULL makes NULL, on other values.
unfoldable pub execute_present : Policy → Operation → List Value → Outcome (Option Value)
unfolding calculate compare_with substring_of test_text ◌-ℤ◌
execute_present p (arithmetic op) (a ∷ b ∷ []) = calculate p op a b
execute_present p (comparison op) (a ∷ b ∷ []) = compare_with op a b >>= truth_value
execute_present p op_neg (int n ∷ []) = returned (some (int (pos 0 -ℤ n)))
execute_present p op_abs (int n ∷ []) = returned (some (int (pos (magnitude n))))
execute_present p op_not (bool b ∷ []) = truth_value (not b)
execute_present p op_lower (text s ∷ []) = returned (some (text (p.lower s)))
execute_present p op_upper (text s ∷ []) = returned (some (text (p.upper s)))
execute_present p op_length (text s ∷ []) = returned (some (int (pos (length s))))
execute_present p op_substring (text s ∷ int start ∷ []) =
    returned (some (text (drop (clamp (start -ℤ pos 1)) s)))
execute_present p op_substring (text s ∷ int start ∷ int len ∷ []) =
    substring_of p.lenient_conversions s start len
execute_present p op_concat (text a ∷ text b ∷ []) = returned (some (text (a ++ b)))
execute_present p (text_test t) (text a ∷ text b ∷ []) = test_text t a b >>= truth_value
execute_present p op args = failed

-- `any(arg is None for arg in args)`, else the arguments.
unfoldable pub all_present : List (Option Value) → Option (List Value)
all_present [] = some []
all_present (none ∷ args) = none
all_present (some v ∷ args) = elim (all_present args) [ none ↦ none | some vs ↦ some (v ∷ vs) ]

unfoldable pub as_boolean : Option Value → Outcome (Option Bool)
as_boolean none = returned none
as_boolean (some (bool b)) = returned (some b)
as_boolean (some v) = failed

abbrev pub boolean_value : Option Bool → Option Value
boolean_value none = none
boolean_value (some b) = some (bool b)

-- `value is True` and `value is False`
unfoldable pub is_exactly_bool : Bool → Option Value → Bool
is_exactly_bool true (some (bool b)) = b
is_exactly_bool false (some (bool b)) = not b
is_exactly_bool b v = false

unfoldable pub test_null : NullTest → Option Value → Bool
unfolding is_none is_exactly_bool
test_null op_is_null v = is_none v
test_null op_is_unknown v = is_none v
test_null op_is_not_null v = not (is_none v)
test_null op_is_true v = is_exactly_bool true v
test_null op_is_false v = is_exactly_bool false v

unfoldable pub execute_strict : Policy → Operation → List (Option Value) → Outcome (Option Value)
unfolding execute_present all_present
execute_strict p op args = elim (all_present args) [
  | none ↦ returned none
  | some vs ↦ execute_present p op vs
]

-- After the check of the collation.
unfoldable pub execute_any : Policy → Operation → List (Option Value) → Outcome (Option Value)
unfolding execute_strict test_null not_distinct conjoin disjoin as_boolean
execute_any p (null_test t) (a ∷ []) = truth_value (test_null t a)
execute_any p (comparison op_is_not_distinct) (a ∷ b ∷ []) = truth_value (not_distinct a b)
execute_any p op_and (a ∷ b ∷ []) = do
  x ← as_boolean a
  y ← as_boolean b
  returned (boolean_value (conjoin (x ∷ y ∷ [])))
execute_any p op_or (a ∷ b ∷ []) = do
  x ← as_boolean a
  y ← as_boolean b
  returned (boolean_value (disjoin (x ∷ y ∷ [])))
execute_any p op args = execute_strict p op args

-- `_CASED`
unfoldable pub cased_test : Operation → List ℕ → List ℕ → Option (Outcome Bool)
unfolding compare_with test_text
cased_test (comparison op_eq) a b = some (compare_with op_eq (text a) (text b))
cased_test (comparison op_ne) a b = some (compare_with op_ne (text a) (text b))
cased_test (comparison op_is_not_distinct) a b = some (compare_with op_eq (text a) (text b))
cased_test (text_test op_like) a b = some (test_text op_like a b)
cased_test op a b = none

-- Whether the outcome on two texts stays when both are casefolded.
unfoldable pub keeps_case : Option (Outcome Bool) → Option (Outcome Bool) → Bool
keeps_case (some (returned true)) (some (returned true)) = true
keeps_case (some (returned false)) (some (returned false)) = true
keeps_case none none = true
keeps_case a b = false

unfoldable pub case_matters : Policy → Operation → List (Option Value) → Bool
unfolding cased_test keeps_case
case_matters p op (some (text a) ∷ some (text b) ∷ []) =
    p.case_insensitive_text
    && not (keeps_case (cased_test op a b) (cased_test op (p.casefold a) (p.casefold b)))
case_matters p op args = false

-- `execute`
unfoldable pub execute : Policy → Operation → List (Option Value) → Outcome (Option Value)
unfolding execute_any case_matters
execute p op args = if case_matters p op args then failed else execute_any p op args
