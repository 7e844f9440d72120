-- ===== src/Scalar/Sorts.antt =====
-- src/parseval/symbolic/operations.py: `promoted_type` and `result_sort`.
use par_seval.Common.{
  Bool, true, false, not, ◌&&◌, ◌||◌, Option, none, some, List, [], ◌∷◌, if◌then◌else◌,
}
use mathlib.Core.Bool.{decide}
use native.Mathlib.Decide.{ℕ_discrete}
use par_seval.Storage.{
  TypeKind, boolean, integer, float, decimal, string, date, timestamp, interval, StorageType,
}

pub record ScalarSort : Type 0 where
  pub sql_type : StorageType
  pub nullable : Bool

pub data Arithmetic : Type 0 where
  op_add op_sub op_mul op_div op_mod : Arithmetic

pub data Compared : Type 0 where
  op_eq op_ne op_lt op_le op_gt op_ge op_is_not_distinct : Compared

pub data NullTest : Type 0 where
  op_is_null op_is_not_null op_is_true op_is_false op_is_unknown : NullTest

pub data TextTest : Type 0 where
  op_like op_ilike op_contains op_startswith op_endswith : TextTest

-- The operations, in the groups that `result_sort` treats alike.
pub data Operation : Type 0 where
  arithmetic : Arithmetic → Operation
  comparison : Compared → Operation
  op_neg op_abs op_and op_or op_not : Operation
  null_test : NullTest → Operation
  op_lower op_upper op_length op_substring op_concat : Operation
  text_test : TextTest → Operation

-- `ScalarType(kind)`
abbrev pub plain_type : TypeKind → StorageType
plain_type k = record {
  kind = k;
  max_length = none;
  integer_bits = none;
  precision = none;
  scale = none;
}

-- `ScalarType.value_type`
abbrev pub value_type : StorageType → StorageType
value_type t = record {
  kind = t.kind;
  max_length = none;
  integer_bits = none;
  precision = t.precision;
  scale = t.scale;
}

pub StorageType-discrete : Discrete StorageType
StorageType-discrete = hlevel ℕ_discrete

unfoldable pub is_numeric : TypeKind → Bool
is_numeric integer = true
is_numeric float = true
is_numeric decimal = true
is_numeric k = false

unfoldable pub numeric_type : TypeKind → TypeKind → StorageType
numeric_type float b = plain_type float
numeric_type a float = plain_type float
numeric_type decimal b = plain_type decimal
numeric_type a decimal = plain_type decimal
numeric_type a b = plain_type integer

-- `promoted_type`, or a TypeError.
unfoldable pub promoted_type : StorageType → StorageType → Option StorageType
unfolding is_numeric numeric_type
promoted_type a b =
    if is_numeric a.kind && is_numeric b.kind
    then some (numeric_type a.kind b.kind)
    else if decide (StorageType-discrete (value_type a) (value_type b))
    then some (value_type a)
    else none

-- Arithmetic on kinds that are not both numeric.
unfoldable pub special_type : Arithmetic → TypeKind → TypeKind → Option StorageType
special_type op_add string string = some (plain_type string)
special_type op_add interval interval = some (plain_type interval)
special_type op_sub interval interval = some (plain_type interval)
special_type op_add date interval = some (plain_type timestamp)
special_type op_add timestamp interval = some (plain_type timestamp)
special_type op_sub date interval = some (plain_type timestamp)
special_type op_sub timestamp interval = some (plain_type timestamp)
special_type op_sub date date = some (plain_type integer)
special_type op a b = none

unfoldable pub arithmetic_type : Arithmetic → StorageType → StorageType → Option StorageType
unfolding promoted_type special_type
arithmetic_type op a b =
    if is_numeric a.kind && is_numeric b.kind
    then promoted_type a b
    else special_type op a.kind b.kind

unfoldable pub any_nullable : List ScalarSort → Bool
any_nullable [] = false
any_nullable (s ∷ ss) = s.nullable || any_nullable ss

-- A sort, if the type is known.
abbrev pub sorted_as : Bool → Option StorageType → Option ScalarSort
sorted_as n none = none
sorted_as n (some t) = some (record { sql_type = t; nullable = n })

abbrev pub is_boolean : TypeKind → Bool
is_boolean boolean = true
is_boolean k = false

abbrev pub is_string : TypeKind → Bool
is_string string = true
is_string k = false

abbrev pub is_integer : TypeKind → Bool
is_integer integer = true
is_integer k = false

abbrev pub is_interval : TypeKind → Bool
is_interval interval = true
is_interval k = false

abbrev pub sort_if : Bool → TypeKind → Bool → Option ScalarSort
sort_if b k n = if b then some (record { sql_type = plain_type k; nullable = n }) else none

abbrev pub is_distinct_test : Compared → Bool
is_distinct_test op_is_not_distinct = true
is_distinct_test c = false

abbrev pub is_null_only : NullTest → Bool
is_null_only op_is_null = true
is_null_only op_is_not_null = true
is_null_only t = false

-- `result_sort`; none where it raises TypeError.
unfoldable pub result_sort : Operation → List ScalarSort → Option ScalarSort
unfolding arithmetic_type any_nullable
result_sort (arithmetic op) (a ∷ b ∷ []) =
    sorted_as (a.nullable || b.nullable) (arithmetic_type op a.sql_type b.sql_type)
result_sort (comparison op) (a ∷ b ∷ []) = elim (promoted_type a.sql_type b.sql_type) [
  | none ↦ none
  | some t ↦ sort_if true boolean ((a.nullable || b.nullable) && not (is_distinct_test op))
]
result_sort op_neg (a ∷ []) =
    if is_numeric a.sql_type.kind
    then some (record { sql_type = value_type a.sql_type; nullable = a.nullable })
    else if is_interval a.sql_type.kind
    then some a
    else none
result_sort op_abs (a ∷ []) =
    if is_numeric a.sql_type.kind
    then some (record { sql_type = value_type a.sql_type; nullable = a.nullable })
    else none
result_sort op_and (a ∷ b ∷ []) =
    sort_if (is_boolean a.sql_type.kind && is_boolean b.sql_type.kind) boolean
      (a.nullable || b.nullable)
result_sort op_or (a ∷ b ∷ []) =
    sort_if (is_boolean a.sql_type.kind && is_boolean b.sql_type.kind) boolean
      (a.nullable || b.nullable)
result_sort op_not (a ∷ []) = sort_if (is_boolean a.sql_type.kind) boolean a.nullable
result_sort (null_test t) (a ∷ []) =
    sort_if (is_null_only t || is_boolean a.sql_type.kind) boolean false
result_sort op_lower (a ∷ []) = sort_if (is_string a.sql_type.kind) string a.nullable
result_sort op_upper (a ∷ []) = sort_if (is_string a.sql_type.kind) string a.nullable
result_sort op_length (a ∷ []) = sort_if (is_string a.sql_type.kind) integer a.nullable
result_sort op_substring (a ∷ b ∷ []) =
    sort_if (is_string a.sql_type.kind && is_integer b.sql_type.kind) string
      (a.nullable || b.nullable)
result_sort op_substring (a ∷ b ∷ c ∷ []) =
    sort_if
      (is_string a.sql_type.kind && (is_integer b.sql_type.kind && is_integer c.sql_type.kind))
      string (a.nullable || (b.nullable || c.nullable))
result_sort op_concat (a ∷ b ∷ []) =
    sort_if (is_string a.sql_type.kind && is_string b.sql_type.kind) string
      (a.nullable || b.nullable)
result_sort (text_test t) (a ∷ b ∷ []) =
    sort_if (is_string a.sql_type.kind && is_string b.sql_type.kind) boolean
      (a.nullable || b.nullable)
result_sort op ss = none
