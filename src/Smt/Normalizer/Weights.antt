-- ===== src/Smt/Normalizer/Weights.antt =====
-- Multiplicity weights of src/parseval/smt/csp.py: `is_weight`, `positive` and the comparisons with
-- zero that they serve.
pub mod Laws
pub mod Positive
pub mod Comparison
use par_seval.Common.{
  ℕ, zero, suc, Bool, true, false, not, ◌&&◌, ◌||◌, Option, none, some, List, [], ◌∷◌,
  if◌then◌else◌, ltb,
}
use par_seval.Common.Int.{ℤ, pos, negsuc}
use par_seval.Scalar.Outcome.{Outcome, returned, failed}
use par_seval.Scalar.Term.{
  Value, bool, int, text, Operator, add, mul, sub, named, Predicate, eq3, lt3, Scalar, literal,
  null, parameter, case, call, to_boolean, Scalars, no_scalars, scalars,
}
use par_seval.Smt.Formula.{
  Formula, known, atom, Formulas, no_formulas, formulas, all_of, any_of, both, either, Test, eq,
}
use par_seval.Smt.Valuation.{Valuation, is_open, value}
use par_seval.Smt.Normalizer.Attempt.{
  Attempt, done, unsupported, ◌>>=◌, Wanted, want_true, want_false, want_unknown,
}

unfoldable pub is_natural : Outcome (Option Value) → Bool
is_natural (returned (some (int (pos n)))) = true
is_natural _ = false

unfoldable pub is_zero : Outcome (Option Value) → Bool
is_zero (returned (some (int (pos zero)))) = true
is_zero _ = false

unfoldable pub is_positive : Outcome (Option Value) → Bool
is_positive (returned (some (int (pos (suc n))))) = true
is_positive _ = false

unfoldable pub adds_or_multiplies : Operator → Bool
adds_or_multiplies add = true
adds_or_multiplies mul = true
adds_or_multiplies _ = false

-- `x == b`
unfoldable pub agrees : Bool → Bool → Bool
agrees true b = b
agrees false b = not b

-- `rejected`: the condition is FALSE or UNKNOWN.
unfoldable pub rejection : (Predicate → Wanted → Attempt Formula) → Predicate → Attempt Formula
rejection truth c = do f ← truth c want_false; u ← truth c want_unknown; done (either f u)

-- A sum is positive if any part is; a product if all parts are.
unfoldable pub join_parts : Operator → Bool → Formulas → Formula
join_parts add b fs = if b then any_of fs else all_of fs
join_parts op b fs = if b then all_of fs else any_of fs

module _ (v : Valuation) where
  -- The branches of `is_weight` on an open term; a closed one is a weight if its value is natural.
  unfoldable mutual
    unfolding is_natural adds_or_multiplies

    pub is_weight : Scalar → Bool
    is_weight (parameter x) =
        if v.is_open_input x then v.is_binary x else is_natural (value v (parameter x))
    is_weight (case c t e) =
        let arms = is_weight t && is_weight e in
        if is_open v (case c t e) then arms else is_natural (value v (case c t e))
    is_weight (call op args) =
        let parts = are_weights args in
        if is_open v (call op args)
        then adds_or_multiplies op && parts
        else is_natural (value v (call op args))
    is_weight t = if is_open v t then false else is_natural (value v t)

    pub are_weights : Scalars → Bool
    are_weights no_scalars = true
    are_weights (scalars a args) = is_weight a && are_weights args

  module _ (truth : Predicate → Wanted → Attempt Formula) where
    -- `positive(term, positive)`: the formula for `term > 0`, or for `term = 0`.
    unfoldable mutual
      unfolding rejection join_parts is_positive agrees

      pub positive : Scalar → Bool → Attempt Formula
      positive (parameter x) b =
          if is_open v (parameter x)
          then done (atom x (eq (int (pos (if b then 1 else 0)))))
          else done (known (agrees b (is_positive (value v (parameter x)))))
      positive (case c t e) b =
          let arms = (do
            selected ← truth c want_true
            rejected ← rejection truth c
            p ← positive t b
            q ← positive e b
            done (either (both selected p) (both rejected q))) in
          if is_open v (case c t e)
          then arms
          else done (known (agrees b (is_positive (value v (case c t e)))))
      positive (call op args) b =
          let parts = positives args b >>= λ fs. done (join_parts op b fs) in
          if is_open v (call op args)
          then parts
          else done (known (agrees b (is_positive (value v (call op args)))))
      positive t b = done (known (agrees b (is_positive (value v t))))

      pub positives : Scalars → Bool → Attempt Formulas
      positives no_scalars b = done no_formulas
      positives (scalars a args) b = do
        f ← positive a b
        fs ← positives args b
        done (formulas f fs)

    unfoldable pub weight_outcome : Scalar → Bool → Wanted → Attempt Formula
    unfolding positive
    weight_outcome w b want_true = positive w b
    weight_outcome w b want_false = positive w (not b)
    weight_outcome w b want_unknown = done (known false)

    unfoldable pub is_closed_zero : Scalar → Bool
    unfolding is_zero
    is_closed_zero t = not (is_open v t) && is_zero (value v t)

    -- `_weight_comparison`: None where the node is no comparison of a weight with zero.
    unfoldable pub weight_comparison : Predicate → Wanted → Option (Attempt Formula)
    unfolding weight_outcome is_closed_zero is_weight
    weight_comparison (lt3 a b) o =
        if is_closed_zero a && is_weight b then some (weight_outcome b true o) else none
    weight_comparison (eq3 a b) o =
        if is_closed_zero b && is_weight a then some (weight_outcome a false o) else none
    weight_comparison p o = none
