-- ===== src/Smt/Search/Domain.antt =====
-- The spaces that `search` of src/parseval/smt/csp.py creates and narrows, over SQL values.
pub mod Order
pub mod Sound
pub mod Refutation
use par_seval.Common.{
  ℕ, Bool, true, false, not, ◌&&◌, Option, none, some, List, [], ◌∷◌, ltb, if◌then◌else◌,
}
use par_seval.Common.Int.{ltb_ℤ}
use par_seval.Scalar.Order.{value_before}
use par_seval.Scalar.Term.{Value, bool, int, text, Predicate}
use par_seval.Scalar.Evaluate.{Runtime, same_value}
use par_seval.Space.{
  ValueKind, Requirement, test, null, equal, different, like, not_like, above, below, Space, narrow,
}
use par_seval.Space.{not_null as not_null_requirement}
use par_seval.Smt.Formula.{
  Test, eq, ne, lt, le, gt, ge, is_null, not_null, matches, not_matches, eq_var, ne_var, passes,
  matches_like,
}
use par_seval.Smt.Valuation.{Valuation}
use par_seval.Smt.Search.{Spaces}

unfoldable pub alike_text : (List ℕ → List ℕ) → Value → Value → Bool
unfolding same_value
alike_text casefold (text a) (text b) = same_value (text (casefold a)) (text (casefold b))
alike_text casefold _ _ = false

abbrev pub sql_values : Runtime → ValueKind
sql_values r = record {
  Carrier = Value;
  before = value_before;
  same = same_value;
  matches = matches_like;
  alike = alike_text r.casefold;
}

-- The values of the inputs' columns: whether a column is nullable, and the ids of the terms.
module _ (v : Valuation) (nullable : ℕ → Bool) (id_of : Predicate → ℕ) where
  -- A new `Space` of an input.
  unfoldable pub fresh_space : ℕ → Space (sql_values v.runtime)
  fresh_space x = record {
    nullable = nullable x;
    null = none;
    equals = none;
    excluded = v.excluded x;
    lower = none;
    upper = none;
    patterns = [];
    rejected = [];
    tests = [];
    case_insensitive = v.runtime.case_insensitive;
  }

  -- `narrow(item.op, item.value)`; atoms between two inputs are kept as links instead.
  unfoldable pub narrow_space :
      Test → Space (sql_values v.runtime) → Bool × Space (sql_values v.runtime)
  unfolding narrow
  narrow_space is_null s = narrow (sql_values v.runtime) s null
  narrow_space not_null s = narrow (sql_values v.runtime) s not_null_requirement
  narrow_space (eq c) s = narrow (sql_values v.runtime) s (equal c)
  narrow_space (ne c) s = narrow (sql_values v.runtime) s (different c)
  narrow_space (lt c) s = narrow (sql_values v.runtime) s (below c true)
  narrow_space (le c) s = narrow (sql_values v.runtime) s (below c false)
  narrow_space (gt c) s = narrow (sql_values v.runtime) s (above c true)
  narrow_space (ge c) s = narrow (sql_values v.runtime) s (above c false)
  narrow_space (matches p) s = narrow (sql_values v.runtime) s (like p)
  narrow_space (not_matches p) s = narrow (sql_values v.runtime) s (not_like p)
  narrow_space (passes p) s = narrow (sql_values v.runtime) s (test (id_of p))
  narrow_space (eq_var y) s = (true, s)
  narrow_space (ne_var y) s = (true, s)

  abbrev pub value_spaces : Spaces
  value_spaces = record {
    Carrier = Space (sql_values v.runtime);
    fresh = fresh_space;
    narrow = narrow_space;
    null = λ s. s.null;
    equals = λ s. s.equals;
  }
