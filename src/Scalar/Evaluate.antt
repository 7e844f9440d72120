-- ===== src/Scalar/Evaluate.antt =====
-- src/parseval/symbolic/expression.py (`ZExpr.evaluate`) and the three-valued part of
-- src/parseval/symbolic/operations.py (`execute`). NULL and UNKNOWN are `none`.
use par_seval.Common.{
  ℕ, Bool, true, false, not, ◌&&◌, ◌||◌, Option, none, some, List, [], ◌∷◌, ◌++◌, ◌==◌, ltb,
  if◌then◌else◌,
}
use mathlib.Core.Bool.{decide}
use par_seval.Common.Int.{ltb_ℤ, ◌+ℤ◌, ◌-ℤ◌, ◌*ℤ◌}
use par_seval.Scalar.Outcome.{Outcome, returned, failed, ◌>>=◌}
use par_seval.Scalar.Like.{like}
use par_seval.Scalar.Term.{
  Value, bool, int, text, Value-discrete, Operator, add, mul, sub, named, Predicate, true3, false3,
  unknown3, to_predicate, eq3, lt3, like3, ilike3, is_not_distinct, is_null, is_not_null, not3,
  and3, or3, Predicates, no_predicates, predicates, Scalar, literal, null, parameter, case, call,
  to_boolean, Scalars, no_scalars, scalars,
}

-- What an execution is given: the registered callbacks, with their results validated, and the
-- collation policy, with Python's `str.casefold`.
pub record Runtime : Type 0 where
  pub scalar : ℕ → List (Option Value) → Outcome (Option Value)
  pub case_insensitive : Bool
  pub casefold : List ℕ → List ℕ

-- The values of all parameters, validated against their sorts.
abbrev pub Assignment : Type 0
Assignment = ℕ → Option Value

-- `==` between values of one sort.
unfoldable pub same_value : Value → Value → Bool
same_value a b = decide (Value-discrete a b)

unfoldable pub less_text : List ℕ → List ℕ → Bool
less_text [] [] = false
less_text [] (b ∷ bs) = true
less_text (a ∷ xs) [] = false
less_text (a ∷ xs) (b ∷ bs) = ltb a b || (a == b && less_text xs bs)

-- `<` between values; Python raises on values of two sorts.
unfoldable pub less : Value → Value → Outcome Bool
unfolding less_text
less (int a) (int b) = returned (ltb_ℤ a b)
less (text a) (text b) = returned (less_text a b)
less (bool a) (bool b) = returned (not a && b)
less _ _ = failed

-- `False if False in args else None if None in args else True`, and its dual.
unfoldable pub has : Option Bool → List (Option Bool) → Bool
has v [] = false
has (some true) (some true ∷ args) = true
has (some false) (some false ∷ args) = true
has none (none ∷ args) = true
has v (a ∷ args) = has v args

unfoldable pub conjoin : List (Option Bool) → Option Bool
unfolding has
conjoin args =
    if has (some false) args then some false else if has none args then none else some true

unfoldable pub disjoin : List (Option Bool) → Option Bool
unfolding has
disjoin args =
    if has (some true) args then some true else if has none args then none else some false

unfoldable pub negate : Option Bool → Option Bool
negate none = none
negate (some b) = some (not b)

-- `args[0] == args[1]` with None among the values.
unfoldable pub not_distinct : Option Value → Option Value → Bool
not_distinct none none = true
not_distinct (some a) (some b) = same_value a b
not_distinct _ _ = false

unfoldable pub is_none : Option Value → Bool
is_none none = true
is_none (some v) = false

-- The arithmetic of `execute` on non-NULL arguments.
unfoldable pub arithmetic : Operator → Value → Value → Outcome (Option Value)
arithmetic add (int a) (int b) = returned (some (int (a +ℤ b)))
arithmetic add (text a) (text b) = returned (some (text (a ++ b)))
arithmetic mul (int a) (int b) = returned (some (int (a *ℤ b)))
arithmetic sub (int a) (int b) = returned (some (int (a -ℤ b)))
arithmetic _ _ _ = failed

-- `yes if values[condition] is True else no`
unfoldable pub select {ℓ} : {A : Type ℓ} → Option Bool → A → A → A
select (some true) t e = t
select _ t e = e

module _ (r : Runtime) where
  -- `_CASED`: an outcome that the collation can change raises.
  unfoldable pub cased : Bool → (List ℕ → List ℕ → Bool) → Value → Value → Outcome Bool
  cased result test (text a) (text b) =
      if r.case_insensitive && (if test (r.casefold a) (r.casefold b) then not result else result)
      then failed
      else returned result
  cased result test _ _ = returned result

  unfoldable pub same_text : List ℕ → List ℕ → Bool
  same_text a b = same_value (text a) (text b)

  unfoldable pub equal : Option Value → Option Value → Outcome (Option Bool)
  unfolding cased same_text
  equal (some a) (some b) = cased (same_value a b) same_text a b >>= λ v. returned (some v)
  equal _ _ = returned none

  unfoldable pub order_less : Option Value → Option Value → Outcome (Option Bool)
  order_less (some a) (some b) = less a b >>= λ v. returned (some v)
  order_less _ _ = returned none

  unfoldable pub distinct_test : Option Value → Option Value → Outcome (Option Bool)
  unfolding cased same_text
  distinct_test (some a) (some b) = cased (same_value a b) same_text a b >>= λ v. returned (some v)
  distinct_test a b = returned (some (not_distinct a b))

  -- LIKE is cased; ILIKE is not.
  unfoldable pub cased_like : List ℕ → List ℕ → Outcome Bool
  cased_like a p = like false a p >>= λ x.
      if r.case_insensitive
      then (like false (r.casefold a) (r.casefold p) >>= λ y.
          if (if x then y else not y) then returned x else failed)
      else returned x

  unfoldable pub match_text :
      (List ℕ → List ℕ → Outcome Bool) → Option Value → Option Value → Outcome (Option Bool)
  match_text f (some (text a)) (some (text p)) = f a p >>= λ v. returned (some v)
  match_text f (some a) (some p) = failed
  match_text f _ _ = returned none

  -- `Runtime.scalar`.
  unfoldable pub apply_operator : Operator → List (Option Value) → Outcome (Option Value)
  unfolding arithmetic
  apply_operator (named f) args = r.scalar f args
  apply_operator op (some a ∷ some b ∷ []) = arithmetic op a b
  apply_operator op (none ∷ b ∷ []) = returned none
  apply_operator op (a ∷ none ∷ []) = returned none
  apply_operator op _ = failed

  -- A Boolean scalar read as a predicate; the arena admits no other sort there.
  unfoldable pub as_truth : Option Value → Outcome (Option Bool)
  as_truth none = returned none
  as_truth (some (bool b)) = returned (some b)
  as_truth (some _) = failed

  unfoldable pub as_value : Option Bool → Option Value
  as_value none = none
  as_value (some b) = some (bool b)

  unfoldable mutual
    unfolding as_truth as_value equal order_less distinct_test match_text cased_like conjoin disjoin
        negate is_none select apply_operator

    pub evaluate_predicate : Assignment → Predicate → Outcome (Option Bool)
    evaluate_predicate env true3 = returned (some true)
    evaluate_predicate env false3 = returned (some false)
    evaluate_predicate env unknown3 = returned none
    evaluate_predicate env (to_predicate a) = evaluate env a >>= as_truth
    evaluate_predicate env (eq3 a b) = do x ← evaluate env a; y ← evaluate env b; equal x y
    evaluate_predicate env (lt3 a b) = do x ← evaluate env a; y ← evaluate env b; order_less x y
    evaluate_predicate env (like3 a b) = do
      x ← evaluate env a
      y ← evaluate env b
      match_text cased_like x y
    evaluate_predicate env (ilike3 a b) = do
      x ← evaluate env a
      y ← evaluate env b
      match_text (like true) x y
    evaluate_predicate env (is_not_distinct a b) = do
      x ← evaluate env a
      y ← evaluate env b
      distinct_test x y
    evaluate_predicate env (is_null a) = evaluate env a >>= λ x. returned (some (is_none x))
    evaluate_predicate env (is_not_null a) =
        evaluate env a >>= λ x. returned (some (not (is_none x)))
    evaluate_predicate env (not3 p) = evaluate_predicate env p >>= λ x. returned (negate x)
    evaluate_predicate env (and3 ps) = evaluate_predicates env ps >>= λ xs. returned (conjoin xs)
    evaluate_predicate env (or3 ps) = evaluate_predicates env ps >>= λ xs. returned (disjoin xs)

    pub evaluate_predicates : Assignment → Predicates → Outcome (List (Option Bool))
    evaluate_predicates env no_predicates = returned []
    evaluate_predicates env (predicates p ps) = do
      x ← evaluate_predicate env p
      xs ← evaluate_predicates env ps
      returned (x ∷ xs)

    pub evaluate : Assignment → Scalar → Outcome (Option Value)
    evaluate env (literal v) = returned (some v)
    evaluate env null = returned none
    evaluate env (parameter p) = returned (env p)
    evaluate env (case c t e) =
        evaluate_predicate env c >>= λ x. select x (evaluate env t) (evaluate env e)
    evaluate env (call op args) = evaluate_scalars env args >>= apply_operator op
    evaluate env (to_boolean p) = evaluate_predicate env p >>= λ x. returned (as_value x)

    pub evaluate_scalars : Assignment → Scalars → Outcome (List (Option Value))
    evaluate_scalars env no_scalars = returned []
    evaluate_scalars env (scalars a args) = do
      x ← evaluate env a
      xs ← evaluate_scalars env args
      returned (x ∷ xs)
