-- ===== src/Smt/Search/Solve.antt =====
-- `solve` and `search` of src/parseval/smt/csp.py.
pub mod Ends
pub mod Unsatisfiable
pub mod Requirements
pub mod Found
use par_seval.Common.{
  ℕ, zero, suc, ◌+◌, Bool, true, false, ◌&&◌, ◌||◌, Option, none, some, List, [], ◌∷◌,
  if◌then◌else◌,
}
use par_seval.Scalar.Term.{Value, Predicate}
use par_seval.Scalar.Evaluate.{Runtime, Assignment, evaluate_predicate}
use par_seval.Smt.Formula.{
  Formula, conjunction, disjunction, Formulas, no_formulas, formulas, all_of, any_of,
  is_true_outcome,
}
use par_seval.Smt.Valuation.{Valuation}
use par_seval.Smt.Normalizer.Attempt.{
  Attempt, done, unsupported, exhausted, key_error, ◌>>=◌, want_true,
}
use par_seval.Smt.Normalizer.Truth.{truth}
use par_seval.Smt.Search.Measure.{weigh}
use par_seval.Smt.Search.{
  Spaces, State, with_choices, fewest, apply, Propagation, contradiction, unfinished, stable,
  propagate,
}

-- BRANCHES
abbrev pub branch_limit : ℕ
branch_limit = 256

-- The values of `branches` and `inconclusive`.
pub record Tally : Type 0 where
  pub branches : ℕ
  pub inconclusive : Bool

abbrev pub gave_up : Tally → Tally
gave_up t = record { branches = t.branches; inconclusive = true }

-- A dict of picked values.
abbrev pub Picks : Type 0
Picks = ℕ → Option (Option Value)

-- What `solve` returns, or that its depth was not enough.
pub data Answer : Type 0 where
  found : Picks → Answer
  nothing too_deep : Answer

-- `ChainMap(values, self.instance.values)`
unfoldable pub overridden : Assignment → Picks → Assignment
overridden stored picks x = elim (picks x) [ some c ↦ c | none ↦ stored x ]

module _ (r : Runtime) (env : Assignment) where
  -- `any(valuation.trial(term, assignment) is True for term in requirement)`
  unfoldable pub any_true : List Predicate → Bool
  any_true [] = false
  any_true (p ∷ ps) = is_true_outcome (evaluate_predicate r env p) || any_true ps

  -- The test of an assignment before it is returned.
  unfoldable pub all_met : List (List Predicate) → Bool
  unfolding any_true
  all_met [] = true
  all_met (ps ∷ pss) = any_true ps && all_met pss

module _ (k : Spaces) (pick : State k → Option Picks) (accepts : Picks → Bool) where
  -- A state without choices.
  unfoldable pub conclude : Option Picks → Tally → Answer × Tally
  conclude none t = (nothing, gave_up t)
  conclude (some a) t = if accepts a then (found a, t) else (nothing, gave_up t)

  -- The options after one that led to this answer.
  unfoldable pub or_else : Answer × Tally → (Tally → Answer × Tally) → Answer × Tally
  or_else (nothing, t) next = next t
  or_else (a, t) next = (a, t)

  -- `branches[0] -= 1`, and what happens below zero.
  unfoldable pub with_budget : (Tally → Answer × Tally) → ℕ → Tally → Answer × Tally
  with_budget body zero t = (nothing, gave_up t)
  with_budget body (suc b) t = body (record { branches = b; inconclusive = t.inconclusive })

  unfoldable pub try_option :
      (State k → Tally → Answer × Tally)
      → (Tally → Answer × Tally)
      → Option (State k)
      → Tally
      → Answer × Tally
  unfolding or_else
  try_option solve next none t = next t
  try_option solve next (some s) t = or_else (solve s t) next

  -- The loop over the options of one choice.
  unfoldable pub branch :
      (State k → Tally → Answer × Tally) → Formulas → State k → Tally → Answer × Tally
  unfolding apply with_budget try_option
  branch solve no_formulas s t = (nothing, t)
  branch solve (formulas f fs) s t =
      with_budget (try_option solve (branch solve fs s) (apply k f s)) t.branches t

  -- A state that `propagate` gives.
  unfoldable pub decide_state :
      (State k → Tally → Answer × Tally) → State k → List Formulas → Tally → Answer × Tally
  unfolding conclude branch fewest
  decide_state solve s [] t = conclude (pick s) t
  decide_state solve s (c ∷ cs) t =
      branch solve (fewest c cs).0 (with_choices k s (fewest c cs).1) t

  unfoldable pub after_propagation :
      (State k → Tally → Answer × Tally) → Propagation k → Tally → Answer × Tally
  unfolding decide_state
  after_propagation solve contradiction t = (nothing, t)
  after_propagation solve unfinished t = (too_deep, t)
  after_propagation solve (stable s) t = decide_state solve s s.choices t

  -- `solve`: the depth of its calls is bounded.
  unfoldable pub solve : ℕ → State k → Tally → Answer × Tally
  unfolding after_propagation propagate weigh
  solve zero s t = (too_deep, t)
  solve (suc n) s t = after_propagation (solve n) (propagate k (suc (weigh s.choices)) s) t

-- `search` gives values or None, or raises.
pub data Search : Type 0 where
  values : Picks → Search
  no_values unsatisfiable not_supported key_missing : Search

unfoldable pub report : Answer × Tally → Search
report (found a, t) = values a
report (nothing, t) = if t.inconclusive then no_values else unsatisfiable
report (too_deep, t) = no_values

abbrev pub empty_state : (k : Spaces) → State k
empty_state k = record { spaces = λ x. none; links = []; choices = [] }

abbrev pub first_tally : Tally
first_tally = record { branches = branch_limit; inconclusive = false }

module _ (v : Valuation) where
  -- The depth `n` bounds the normalizer, as NORMALIZED does.
  unfoldable pub alternatives : ℕ → List Predicate → Attempt Formulas
  unfolding truth
  alternatives n [] = done no_formulas
  alternatives n (p ∷ ps) = do
    f ← truth v n p want_true
    fs ← alternatives n ps
    done (formulas f fs)

  unfoldable pub every_requirement : ℕ → List (List Predicate) → Attempt Formulas
  unfolding alternatives any_of
  every_requirement n [] = done no_formulas
  every_requirement n (ps ∷ pss) = do
    fs ← alternatives n ps
    rest ← every_requirement n pss
    done (formulas (any_of fs) rest)

  module _ (k : Spaces) (pick : State k → Option Picks) where
    -- The state that the whole formula gives, or none.
    unfoldable pub solve_from : List (List Predicate) → Option (State k) → Search
    unfolding report solve weigh all_met overridden
    solve_from pss none = unsatisfiable
    solve_from pss (some s) = report (
        solve k pick (λ a. all_met v.runtime (overridden v.stored a) pss) (suc (weigh s.choices)) s
          first_tally)

    unfoldable pub search_formulas : List (List Predicate) → Attempt Formulas → Search
    unfolding solve_from apply all_of
    search_formulas pss unsupported = not_supported
    search_formulas pss exhausted = no_values
    search_formulas pss key_error = key_missing
    search_formulas pss (done fs) = solve_from pss (apply k (all_of fs) (empty_state k))

    -- `search`
    unfoldable pub search : ℕ → List (List Predicate) → Search
    unfolding every_requirement search_formulas
    search n pss = search_formulas pss (every_requirement n pss)
