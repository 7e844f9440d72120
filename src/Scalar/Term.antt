-- ===== src/Scalar/Term.antt =====
-- src/parseval/terms/terms.py: the scalar and predicate nodes, as the trees that arena terms unfold
-- to. The sorts that the arena infers are the four types: a predicate is SQL's three-valued logic.
use par_seval.Common.{ℕ, Bool, List}
use par_seval.Common.Int.{ℤ}
use native.Mathlib.Decide.{ℕ_discrete}

-- A non-NULL value; a text is its code points.
pub data Value : Type 0 where
  bool : Bool → Value
  int : ℤ → Value
  text : List ℕ → Value

pub Value-discrete : Discrete Value
Value-discrete = hlevel ℕ_discrete

-- The operator of a ScalarCall; every other one goes by a number.
pub data Operator : Type 0 where
  add mul sub : Operator
  named : ℕ → Operator

mutual
  pub data Predicate : Type 0 where
    true3 false3 unknown3 : Predicate
    to_predicate : Scalar → Predicate
    eq3 lt3 like3 ilike3 is_not_distinct : Scalar → Scalar → Predicate
    is_null is_not_null : Scalar → Predicate
    not3 : Predicate → Predicate
    and3 or3 : Predicates → Predicate

  pub data Predicates : Type 0 where
    no_predicates : Predicates
    predicates : Predicate → Predicates → Predicates

  pub data Scalar : Type 0 where
    literal : Value → Scalar
    null : Scalar
    parameter : ℕ → Scalar
    case : Predicate → Scalar → Scalar → Scalar
    call : Operator → Scalars → Scalar
    to_boolean : Predicate → Scalar

  pub data Scalars : Type 0 where
    no_scalars : Scalars
    scalars : Scalar → Scalars → Scalars
