-- ===== src/Smt/Normalizer/Truth.antt =====
-- src/parseval/smt/csp.py, `Normalizer.truth` and what it calls.
use par_seval.Common.{
  ℕ, zero, suc, Bool, true, false, not, Option, none, some, List, [], ◌∷◌, if◌then◌else◌,
}
use par_seval.Scalar.Outcome.{Outcome, returned, failed}
use par_seval.Scalar.Term.{
  Value, bool, Predicate, to_predicate, eq3, lt3, like3, is_not_distinct, not3, and3, or3,
  Predicates, no_predicates, predicates, Scalar, literal, parameter, to_boolean,
}
use par_seval.Scalar.Term.{is_null as is_null3, is_not_null as is_not_null3}
use par_seval.Scalar.Evaluate.{is_none}
use par_seval.Smt.Formula.{
  Formula, known, atom, Formulas, no_formulas, formulas, all_of, any_of, both, either, Test, eq, ne,
  lt, le, gt, ge, is_null, not_null, matches, not_matches, eq_var, ne_var, passes,
}
use par_seval.Smt.Valuation.{Valuation, is_open_predicate, is_open, value_of, value, inputs_of}
use par_seval.Smt.Normalizer.Attempt.{
  Attempt, done, unsupported, exhausted, key_error, ◌>>=◌, recover, Wanted, want_true, want_false,
  want_unknown, opposite, is_outcome,
}
use par_seval.Smt.Normalizer.Weights.{weight_comparison}
use par_seval.Smt.Normalizer.Lift.{split}

pub data Operand : Type 0 where
  input : ℕ → Operand
  constant : Option Value → Operand

-- The formulas of one child for the three outcomes.
pub record Part : Type 0 where
  pub when_true : Formula
  pub when_false : Formula
  pub when_unknown : Formula

unfoldable pub whens : Wanted → List Part → Formulas
whens o [] = no_formulas
whens want_true (p ∷ ps) = formulas p.when_true (whens want_true ps)
whens want_false (p ∷ ps) = formulas p.when_false (whens want_false ps)
whens want_unknown (p ∷ ps) = formulas p.when_unknown (whens want_unknown ps)

-- `_or(part[strong], part["unknown"])` for each part.
unfoldable pub not_weak : Wanted → List Part → Formulas
not_weak o [] = no_formulas
not_weak want_true (p ∷ ps) = formulas (either p.when_true p.when_unknown) (not_weak want_true ps)
not_weak o (p ∷ ps) = formulas (either p.when_false p.when_unknown) (not_weak o ps)

-- AND has the strong outcome TRUE, OR has FALSE.
unfoldable pub junction : Wanted → Wanted → List Part → Formula
unfolding whens not_weak
junction strong want_unknown ps =
    all_of (formulas (any_of (whens want_unknown ps)) (not_weak strong ps))
junction want_true want_true ps = all_of (whens want_true ps)
junction want_true want_false ps = any_of (whens want_false ps)
junction _ want_false ps = all_of (whens want_false ps)
junction _ want_true ps = any_of (whens want_true ps)

unfoldable pub null_atom : Bool → Test
null_atom true = is_null
null_atom false = not_null

-- `value is {…}[outcome]`: a Failure is none of the three.
unfoldable pub closed_outcome : Wanted → Outcome (Option Bool) → Bool
unfolding is_outcome
closed_outcome o (returned x) = is_outcome o x
closed_outcome o failed = false

-- `{True: "true", False: "false", None: "unknown"}[value]`
unfoldable pub target_of : Outcome (Option Value) → Attempt Wanted
target_of (returned none) = done want_unknown
target_of (returned (some (bool true))) = done want_true
target_of (returned (some (bool false))) = done want_false
target_of _ = key_error

unfoldable pub equality : Wanted → ℕ → Value → Formula
equality want_true a b = atom a (eq b)
equality want_false a b = atom a (ne b)
equality want_unknown a b = atom a is_null

unfoldable pub less_than : Wanted → ℕ → Value → Formula
less_than want_true a b = atom a (lt b)
less_than want_false a b = atom a (ge b)
less_than want_unknown a b = atom a is_null

unfoldable pub greater_than : Wanted → ℕ → Value → Formula
greater_than want_true a b = atom a (gt b)
greater_than want_false a b = atom a (le b)
greater_than want_unknown a b = atom a is_null

-- `outcome == "unknown"`
abbrev pub is_unknown_wanted : Wanted → Bool
is_unknown_wanted want_unknown = true
is_unknown_wanted _ = false

-- A comparison with a constant: NULL gives UNKNOWN.
unfoldable pub with_constant : (Wanted → ℕ → Value → Formula) → Wanted → ℕ → Option Value → Formula
with_constant f o a none = known (is_unknown_wanted o)
with_constant f o a (some b) = f o a b

-- `_compare` of two inputs by equality.
unfoldable pub equality_of_inputs : Wanted → ℕ → ℕ → Formula
equality_of_inputs want_unknown a b = either (atom a is_null) (atom b is_null)
equality_of_inputs want_true a b = all_of (
    formulas (atom a not_null)
      (formulas (atom b not_null) (formulas (atom a (eq_var b)) no_formulas)))
equality_of_inputs want_false a b = all_of (
    formulas (atom a not_null)
      (formulas (atom b not_null) (formulas (atom a (ne_var b)) no_formulas)))

unfoldable pub compare_eq : Wanted → Operand → Operand → Attempt Formula
unfolding with_constant equality equality_of_inputs
compare_eq o (input a) (constant b) = done (with_constant equality o a b)
compare_eq o (constant b) (input a) = done (with_constant equality o a b)
compare_eq o (input a) (input b) = done (equality_of_inputs o a b)
compare_eq o (constant a) (constant b) = unsupported

unfoldable pub compare_lt : Wanted → Operand → Operand → Attempt Formula
unfolding with_constant less_than greater_than
compare_lt o (input a) (constant b) = done (with_constant less_than o a b)
compare_lt o (constant b) (input a) = done (with_constant greater_than o a b)
compare_lt o (input a) (input b) = unsupported
compare_lt o (constant a) (constant b) = unsupported

unfoldable pub distinct_from_constant : Wanted → ℕ → Option Value → Formula
distinct_from_constant want_true a none = atom a is_null
distinct_from_constant _ a none = atom a not_null
distinct_from_constant want_true a (some b) = atom a (eq b)
distinct_from_constant _ a (some b) = either (atom a is_null) (atom a (ne b))

unfoldable pub distinct_inputs : Wanted → ℕ → ℕ → Formula
distinct_inputs want_true a b =
    either (both (atom a is_null) (atom b is_null))
      (both (both (atom a not_null) (atom b not_null)) (atom a (eq_var b)))
distinct_inputs _ a b = any_of (
    formulas (both (atom a is_null) (atom b not_null)) (
      formulas (both (atom a not_null) (atom b is_null)) (
        formulas (both (both (atom a not_null) (atom b not_null)) (atom a (ne_var b)))
          no_formulas)))

unfoldable pub distinct_operands : Wanted → Operand → Operand → Attempt Formula
unfolding distinct_from_constant distinct_inputs
distinct_operands o (input a) (constant b) = done (distinct_from_constant o a b)
distinct_operands o (constant b) (input a) = done (distinct_from_constant o a b)
distinct_operands o (input a) (input b) = done (distinct_inputs o a b)
distinct_operands o (constant a) (constant b) = unsupported

unfoldable pub like_operands : Wanted → Operand → Operand → Attempt Formula
like_operands o (input a) (constant none) = done (known (is_unknown_wanted o))
like_operands want_unknown (input a) (constant (some p)) = done (atom a is_null)
like_operands want_true (input a) (constant (some p)) = done (atom a (matches p))
like_operands want_false (input a) (constant (some p)) = done (atom a (not_matches p))
like_operands o _ _ = unsupported

unfoldable pub boolean_operand : Wanted → Operand → Attempt Formula
boolean_operand want_unknown (input a) = done (atom a is_null)
boolean_operand want_true (input a) = done (atom a (eq (bool true)))
boolean_operand want_false (input a) = done (atom a (eq (bool false)))
boolean_operand o (constant c) = unsupported

-- The outcomes other than the target, in the order of OUTCOMES.
abbrev pub others : Wanted → Wanted × Wanted
others want_true = (want_false, want_unknown)
others want_false = (want_true, want_unknown)
others want_unknown = (want_true, want_false)

unfoldable pub truth_literal : Wanted → Predicate → Predicate
truth_literal want_true p = is_not_distinct (to_boolean p) (literal (bool true))
truth_literal want_false p = is_not_distinct (to_boolean p) (literal (bool false))
truth_literal want_unknown p = is_null3 (to_boolean p)

module _ (v : Valuation) where
  -- `_operand`
  unfoldable pub operand : Scalar → Attempt Operand
  operand (parameter x) =
      if v.is_open_input x
      then done (input x)
      else elim (value v (parameter x)) [ failed ↦ unsupported | returned c ↦ done (constant c) ]
  operand t =
      if is_open v t
      then unsupported
      else elim (value v t) [ failed ↦ unsupported | returned c ↦ done (constant c) ]

  -- `_test`: a predicate over a single input.
  unfoldable pub single_input_test : Predicate → Wanted → Attempt Formula
  unfolding truth_literal
  single_input_test p o = elim (inputs_of v p) [
    | [] ↦ unsupported
    | x ∷ xs ↦ elim xs [ [] ↦ done (atom x (passes (truth_literal o p))) | _ ↦ unsupported ]
  ]

  module _ (truth : Predicate → Wanted → Attempt Formula) where
    unfoldable pub parts : Predicates → Attempt (List Part)
    parts no_predicates = done []
    parts (predicates p ps) = do
      t ← truth p want_true
      f ← truth p want_false
      u ← truth p want_unknown
      rest ← parts ps
      done (record { when_true = t; when_false = f; when_unknown = u } ∷ rest)

    -- `_null(term, null)`
    unfoldable pub null_formula : Scalar → Bool → Attempt Formula
    unfolding operand null_atom
    null_formula (to_boolean p) true = truth p want_unknown
    null_formula (to_boolean p) false = do
      t ← truth p want_true
      f ← truth p want_false
      done (either t f)
    null_formula a b = operand a >>= elim [
      | input x ↦ done (atom x (null_atom b))
      | constant c ↦ done (known (if b then is_none c else not (is_none c)))
    ]

    unfoldable pub null_test : Bool → Scalar → Wanted → Attempt Formula
    unfolding null_formula
    null_test b a want_unknown = done (known false)
    null_test b a want_true = do
      n ← null_formula a true
      m ← null_formula a false
      done (if b then n else m)
    null_test b a want_false = do
      n ← null_formula a true
      m ← null_formula a false
      done (if b then m else n)

    -- A Boolean operand compared with a closed one, for the outcomes TRUE and FALSE.
    unfoldable pub boolean_distinct : Predicate → Wanted → Wanted → Attempt Formula
    boolean_distinct p want_true target = truth p target
    boolean_distinct p _ target = do
      f ← truth p (others target).0
      g ← truth p (others target).1
      done (either f g)

    -- One round of the loop over both orders of the operands.
    unfoldable pub boolean_side : Scalar → Scalar → Wanted → Option (Attempt Formula)
    unfolding boolean_distinct target_of
    boolean_side (to_boolean p) other o =
        if is_open v other then none else some (target_of (value v other) >>= boolean_distinct p o)
    boolean_side _ other o = none

    unfoldable pub plain_distinct : Scalar → Scalar → Wanted → Attempt Formula
    unfolding operand distinct_operands
    plain_distinct a b o = do x ← operand a; y ← operand b; distinct_operands o x y

    -- `_not_distinct`
    unfoldable pub not_distinct_formula : Scalar → Scalar → Wanted → Attempt Formula
    unfolding boolean_side plain_distinct
    not_distinct_formula a b want_unknown = done (known false)
    not_distinct_formula a b o = elim (boolean_side a b o) [
      | some f ↦ f
      | none ↦ elim (boolean_side b a o) [ some f ↦ f | none ↦ plain_distinct a b o ]
    ]

    unfoldable pub compare_operands :
        (Wanted → Operand → Operand → Attempt Formula) → Scalar → Scalar → Wanted → Attempt Formula
    unfolding operand
    compare_operands f a b o = do x ← operand a; y ← operand b; f o x y

    -- `_truth` on an open predicate.
    unfoldable pub open_truth : Predicate → Wanted → Attempt Formula
    unfolding parts null_test not_distinct_formula compare_operands compare_eq compare_lt
        like_operands boolean_operand junction opposite weight_comparison
    open_truth (not3 p) o = truth p (opposite o)
    open_truth (and3 ps) o = parts ps >>= λ xs. done (junction want_true o xs)
    open_truth (or3 ps) o = parts ps >>= λ xs. done (junction want_false o xs)
    open_truth (is_null3 a) o = null_test true a o
    open_truth (is_not_null3 a) o = null_test false a o
    open_truth (is_not_distinct a b) o = not_distinct_formula a b o
    open_truth (eq3 a b) o = elim (weight_comparison v truth (eq3 a b) o) [
      | some f ↦ f
      | none ↦ compare_operands compare_eq a b o
    ]
    open_truth (lt3 a b) o = elim (weight_comparison v truth (lt3 a b) o) [
      | some f ↦ f
      | none ↦ compare_operands compare_lt a b o
    ]
    open_truth (like3 a b) o = compare_operands like_operands a b o
    open_truth (to_predicate a) o = operand a >>= boolean_operand o
    open_truth p o = unsupported

    unfoldable pub one_truth : Predicate → Wanted → Attempt Formula
    unfolding open_truth closed_outcome
    one_truth p o =
        if is_open_predicate v p
        then open_truth p o
        else done (known (closed_outcome o (value_of v p)))

  -- `truth(term, outcome)`; the first argument bounds the depth, as NORMALIZED does.
  unfoldable pub truth : ℕ → Predicate → Wanted → Attempt Formula
  unfolding one_truth split single_input_test recover
  truth zero p o = exhausted
  truth (suc n) p o =
      recover (one_truth (truth n) p o) (recover (split v (truth n) p o) (single_input_test p o))
