-- ===== src/Smt/Search/Solve/Found.antt =====
-- Values that `search` of src/parseval/smt/csp.py returns meet every requirement.
use par_seval.Common.{
  ℕ, zero, suc, ◌≡◌, Bool, true, Bool-cases, inl, inr, Option, none, some, List, [], ◌∷◌,
}
use mathlib.Core.Path.{subst}
use par_seval.Scalar.Term.{Predicate}
use par_seval.Smt.Formula.{Formulas, no_formulas, formulas, all_of}
use par_seval.Smt.Valuation.{Valuation}
use par_seval.Smt.Normalizer.Attempt.{Attempt, done, unsupported, exhausted, key_error}
use par_seval.Smt.Search.{
  Spaces, State, with_choices, fewest, apply, Propagation, contradiction, unfinished, stable,
  propagate,
}
use par_seval.Smt.Search.Measure.{weigh}
use par_seval.Smt.Search.Solve.{
  Tally, Picks, Answer, found, nothing, too_deep, overridden, conclude, or_else, with_budget,
  try_option, branch, decide_state, after_propagation, solve, all_met, values, report, empty_state,
  first_tally, solve_from, search_formulas, every_requirement, search,
}

module _ (k : Spaces) (pick : State k → Option Picks) (accepts : Picks → Bool) where
  -- Values found are accepted.
  unfoldable pub IsAccepted : Answer × Tally → Type 0
  IsAccepted (found a, t) = accepts a ≡ true
  IsAccepted (nothing, t) = Unit
  IsAccepted (too_deep, t) = Unit

  conclude-IsAccepted : (o : Option Picks) (t : Tally) → IsAccepted (conclude k pick accepts o t)
  unfolding conclude
  conclude-IsAccepted none t = unfold IsAccepted in tt
  conclude-IsAccepted (some a) t = elim (Bool-cases (accepts a)) [
    | inl e ↦ rw (conclude, e) (unfold IsAccepted in e)
    | inr e ↦ rw (conclude, e) (unfold IsAccepted in tt)
  ]

  module _ (again : State k → Tally → Answer × Tally)
      (accepted : (s : State k) (t : Tally) → IsAccepted (again s t)) where
    or_else-IsAccepted :
        (q : Answer × Tally) (next : Tally → Answer × Tally)
        → IsAccepted q
        → ((t : Tally) → IsAccepted (next t))
        → IsAccepted (or_else k pick accepts q next)
    unfolding or_else
    or_else-IsAccepted (found a, t) next h n = h
    or_else-IsAccepted (nothing, t) next h n = n t
    or_else-IsAccepted (too_deep, t) next h n = h

    try_option-IsAccepted :
        (next : Tally → Answer × Tally) (o : Option (State k)) (t : Tally)
        → ((t : Tally) → IsAccepted (next t))
        → IsAccepted (try_option k pick accepts again next o t)
    unfolding try_option
    try_option-IsAccepted next none t n = n t
    try_option-IsAccepted next (some s) t n = or_else-IsAccepted (again s t) next (accepted s t) n

    with_budget-IsAccepted :
        (body : Tally → Answer × Tally) (b : ℕ) (t : Tally)
        → ((t : Tally) → IsAccepted (body t))
        → IsAccepted (with_budget k pick accepts body b t)
    unfolding with_budget
    with_budget-IsAccepted body zero t n = unfold IsAccepted in tt
    with_budget-IsAccepted body (suc b) t n =
        n (record { branches = b; inconclusive = t.inconclusive })

    branch-IsAccepted :
        (fs : Formulas) (s : State k) (t : Tally) → IsAccepted (branch k pick accepts again fs s t)
    unfolding branch
    branch-IsAccepted no_formulas s t = unfold IsAccepted in tt
    branch-IsAccepted (formulas f fs) s t =
        let next = branch k pick accepts again fs s in
        with_budget-IsAccepted (try_option k pick accepts again next (apply k f s)) t.branches t
          (λ u. try_option-IsAccepted next (apply k f s) u (branch-IsAccepted fs s))

    decide_state-IsAccepted :
        (s : State k) (cs : List Formulas) (t : Tally)
        → IsAccepted (decide_state k pick accepts again s cs t)
    unfolding decide_state
    decide_state-IsAccepted s [] t = conclude-IsAccepted (pick s) t
    decide_state-IsAccepted s (c ∷ cs) t =
        branch-IsAccepted (fewest c cs).0 (with_choices k s (fewest c cs).1) t

    after_propagation-IsAccepted :
        (o : Propagation k) (t : Tally) → IsAccepted (after_propagation k pick accepts again o t)
    unfolding after_propagation
    after_propagation-IsAccepted contradiction t = unfold IsAccepted in tt
    after_propagation-IsAccepted unfinished t = unfold IsAccepted in tt
    after_propagation-IsAccepted (stable s) t = decide_state-IsAccepted s s.choices t

  solve-IsAccepted : (n : ℕ) (s : State k) (t : Tally) → IsAccepted (solve k pick accepts n s t)
  unfolding solve
  solve-IsAccepted zero s t = unfold IsAccepted in tt
  solve-IsAccepted (suc n) s t =
      after_propagation-IsAccepted (solve k pick accepts n) (solve-IsAccepted n)
        (propagate k (suc (weigh s.choices)) s) t

module _ (v : Valuation) (k : Spaces) (pick : State k → Option Picks) where
  reported-values :
      (accepts : Picks → Bool) (q : Answer × Tally) (a : Picks)
      → IsAccepted k pick accepts q
      → report q ≡ values a
      → accepts a ≡ true
  unfolding report IsAccepted
  reported-values accepts (found b, t) a h e =
      let same : b ≡ a = cc in subst (λ c. accepts c ≡ true) same h
  reported-values accepts (nothing, t) a h e = elim (Bool-cases t.inconclusive) [
    | inl i ↦ cc (rw i at e)
    | inr i ↦ cc (rw i at e)
  ]
  reported-values accepts (too_deep, t) a h e = cc

  solve_from-values :
      (pss : List (List Predicate)) (o : Option (State k)) (a : Picks)
      → solve_from v k pick pss o ≡ values a
      → all_met v.runtime (overridden v.stored a) pss ≡ true
  unfolding solve_from
  solve_from-values pss none a e = cc
  solve_from-values pss (some s) a e =
      let accepts : Picks → Bool = λ a. all_met v.runtime (overridden v.stored a) pss in
      reported-values accepts (solve k pick accepts (suc (weigh s.choices)) s first_tally) a
        (solve-IsAccepted k pick accepts (suc (weigh s.choices)) s first_tally) e

  search_formulas-values :
      (pss : List (List Predicate)) (m : Attempt Formulas) (a : Picks)
      → search_formulas v k pick pss m ≡ values a
      → all_met v.runtime (overridden v.stored a) pss ≡ true
  unfolding search_formulas
  search_formulas-values pss unsupported a e = cc
  search_formulas-values pss exhausted a e = cc
  search_formulas-values pss key_error a e = cc
  search_formulas-values pss (done fs) a e =
      solve_from-values pss (apply k (all_of fs) (empty_state k)) a e

-- Values that `search` returns, with the stored values of the other inputs, make an alternative of
-- every requirement TRUE.
pub search-values :
    (v : Valuation) (k : Spaces) (pick : State k → Option Picks) (n : ℕ)
    (pss : List (List Predicate)) (a : Picks)
    → search v k pick n pss ≡ values a
    → all_met v.runtime (overridden v.stored a) pss ≡ true
unfolding search
search-values v k pick n pss a e =
    search_formulas-values v k pick pss (every_requirement v n pss) a e
