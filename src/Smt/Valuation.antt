-- ===== src/Smt/Valuation.antt =====
-- src/parseval/instance/valuation.py: which terms mention open inputs, the value of a term that does
-- not, and the folding of new terms.
pub mod Laws
pub mod Building
pub mod Sums
use par_seval.Common.{
  ℕ, zero, suc, Bool, true, false, not, ◌&&◌, ◌||◌, Option, none, some, List, [], ◌∷◌,
  if◌then◌else◌, ◌==◌,
}
use par_seval.Scalar.Outcome.{Outcome, returned, failed, ◌>>=◌}
use par_seval.Scalar.Term.{
  Value, bool, int, text, Operator, Predicate, true3, false3, unknown3, to_predicate, eq3, lt3,
  like3, ilike3, is_not_distinct, is_null, is_not_null, not3, and3, or3, Predicates, no_predicates,
  predicates, Scalar, literal, null, parameter, case, call, to_boolean, Scalars, no_scalars,
  scalars,
}
use par_seval.Scalar.Evaluate.{Runtime, Assignment, evaluate_predicate, evaluate, same_value}

-- The fields of `Valuation` that the normalizer reads; `excluded` are the stored keys.
pub record Valuation : Type 0 where
  pub runtime : Runtime
  pub is_open_input : ℕ → Bool
  pub is_binary : ℕ → Bool
  pub stored : Assignment
  pub excluded : ℕ → List Value

module _ (v : Valuation) where
  unfoldable mutual
    pub is_open_predicate : Predicate → Bool
    is_open_predicate true3 = false
    is_open_predicate false3 = false
    is_open_predicate unknown3 = false
    is_open_predicate (to_predicate a) = is_open a
    is_open_predicate (eq3 a b) = is_open a || is_open b
    is_open_predicate (lt3 a b) = is_open a || is_open b
    is_open_predicate (like3 a b) = is_open a || is_open b
    is_open_predicate (ilike3 a b) = is_open a || is_open b
    is_open_predicate (is_not_distinct a b) = is_open a || is_open b
    is_open_predicate (is_null a) = is_open a
    is_open_predicate (is_not_null a) = is_open a
    is_open_predicate (not3 p) = is_open_predicate p
    is_open_predicate (and3 ps) = any_open_predicate ps
    is_open_predicate (or3 ps) = any_open_predicate ps

    pub any_open_predicate : Predicates → Bool
    any_open_predicate no_predicates = false
    any_open_predicate (predicates p ps) = is_open_predicate p || any_open_predicate ps

    pub is_open : Scalar → Bool
    is_open (literal c) = false
    is_open null = false
    is_open (parameter x) = v.is_open_input x
    is_open (case c t e) = is_open_predicate c || (is_open t || is_open e)
    is_open (call op args) = any_open args
    is_open (to_boolean p) = is_open_predicate p

    pub any_open : Scalars → Bool
    any_open no_scalars = false
    any_open (scalars a args) = is_open a || any_open args

  -- The set union of `inputs`, without repetitions.
  unfoldable pub mentions : ℕ → List ℕ → Bool
  mentions x [] = false
  mentions x (y ∷ ys) = x == y || mentions x ys

  unfoldable pub union : List ℕ → List ℕ → List ℕ
  unfolding mentions
  union [] ys = ys
  union (x ∷ xs) ys = let rest = union xs ys in if mentions x rest then rest else x ∷ rest

  unfoldable mutual
    unfolding union

    pub inputs_of : Predicate → List ℕ
    inputs_of true3 = []
    inputs_of false3 = []
    inputs_of unknown3 = []
    inputs_of (to_predicate a) = inputs a
    inputs_of (eq3 a b) = union (inputs a) (inputs b)
    inputs_of (lt3 a b) = union (inputs a) (inputs b)
    inputs_of (like3 a b) = union (inputs a) (inputs b)
    inputs_of (ilike3 a b) = union (inputs a) (inputs b)
    inputs_of (is_not_distinct a b) = union (inputs a) (inputs b)
    inputs_of (is_null a) = inputs a
    inputs_of (is_not_null a) = inputs a
    inputs_of (not3 p) = inputs_of p
    inputs_of (and3 ps) = inputs_of_all ps
    inputs_of (or3 ps) = inputs_of_all ps

    pub inputs_of_all : Predicates → List ℕ
    inputs_of_all no_predicates = []
    inputs_of_all (predicates p ps) = union (inputs_of p) (inputs_of_all ps)

    pub inputs : Scalar → List ℕ
    inputs (literal c) = []
    inputs null = []
    inputs (parameter x) = if v.is_open_input x then x ∷ [] else []
    inputs (case c t e) = union (inputs_of c) (union (inputs t) (inputs e))
    inputs (call op args) = inputs_all args
    inputs (to_boolean p) = inputs_of p

    pub inputs_all : Scalars → List ℕ
    inputs_all no_scalars = []
    inputs_all (scalars a args) = union (inputs a) (inputs_all args)

  -- `Valuation.value`: a term under the stored values, or a Failure.
  abbrev pub value_of : Predicate → Outcome (Option Bool)
  value_of p = evaluate_predicate v.runtime v.stored p

  abbrev pub value : Scalar → Outcome (Option Value)
  value t = evaluate v.runtime v.stored t

  unfoldable pub text_key : Value → Value
  text_key (text s) = if v.runtime.case_insensitive then text (v.runtime.casefold s) else text s
  text_key c = c

  unfoldable pub is_excluded : Value → List Value → Bool
  unfolding text_key same_value
  is_excluded c [] = false
  is_excluded c (e ∷ es) = same_value (text_key c) (text_key e) || is_excluded c es

  -- A cell compared with a value that it never takes.
  unfoldable pub never_equal : Scalar → Scalar → Bool
  unfolding is_excluded
  never_equal (parameter x) (literal c) = is_excluded c (v.excluded x)
  never_equal _ _ = false

  unfoldable pub fold_open : Predicate → Predicate
  unfolding never_equal
  fold_open (eq3 a b) = if never_equal a b || never_equal b a then false3 else eq3 a b
  fold_open (is_not_distinct a b) =
      if never_equal a b || never_equal b a then false3 else is_not_distinct a b
  fold_open p = p

  unfoldable pub truth_constant : Option Bool → Predicate
  truth_constant (some true) = true3
  truth_constant (some false) = false3
  truth_constant none = unknown3

  -- `Valuation.fold` on predicates, and on scalars.
  unfoldable pub fold_predicate : Predicate → Predicate
  unfolding is_open_predicate fold_open truth_constant
  fold_predicate p =
      if is_open_predicate p
      then fold_open p
      else elim (value_of p) [ failed ↦ p | returned x ↦ truth_constant x ]

  unfoldable pub constant_term : Option Value → Scalar
  constant_term none = null
  constant_term (some c) = literal c

  unfoldable pub fold_scalar : Scalar → Scalar
  unfolding is_open_predicate constant_term
  fold_scalar t =
      if is_open t then t else elim (value t) [ failed ↦ t | returned x ↦ constant_term x ]
