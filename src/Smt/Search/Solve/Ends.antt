-- ===== src/Smt/Search/Solve/Ends.antt =====
-- The calls of `solve` in src/parseval/smt/csp.py end: each branch leaves smaller choices.
use par_seval.Common.{
  ℕ, zero, suc, ◌+◌, ◌<◌, ◌≡◌, ◌≢◌, refl, Bool, Bool-cases, inl, inr, arith, Option, none, some,
  List, [], ◌∷◌,
}
use par_seval.Smt.Formula.{Formula, Formulas, no_formulas, formulas}
use par_seval.Smt.Search.{
  Spaces, State, with_choices, fewest, apply, Propagation, contradiction, unfinished, stable,
  propagate,
}
use par_seval.Smt.Search.Measure.{
  size, sizes, weigh, fewest-weighs, apply-weighs, Propagated, propagate-ends,
}
use par_seval.Smt.Search.Solve.{
  Tally, Picks, Answer, found, nothing, too_deep, conclude, or_else, with_budget, try_option,
  branch, decide_state, after_propagation, solve,
}

module _ (k : Spaces) (pick : State k → Option Picks) (accepts : Picks → Bool) where
  abbrev Ends : Answer × Tally → Type 0
  Ends q = q.0 ≢ too_deep

  conclude-Ends : (o : Option Picks) (t : Tally) → Ends (conclude k pick accepts o t)
  unfolding conclude
  conclude-Ends none t h = cc
  conclude-Ends (some a) t h = elim (Bool-cases (accepts a)) [
    | inl e ↦ cc (rw e at h)
    | inr e ↦ cc (rw e at h)
  ]

  or_else-Ends :
      (q : Answer × Tally) (next : Tally → Answer × Tally)
      → Ends q
      → ((t : Tally) → Ends (next t))
      → Ends (or_else k pick accepts q next)
  unfolding or_else
  or_else-Ends (found a, t) next h n = h
  or_else-Ends (nothing, t) next h n = n t
  or_else-Ends (too_deep, t) next h n = h

  -- Each part ends when the calls that it makes do.
  module _ (n : ℕ) (again : State k → Tally → Answer × Tally)
      (ends : (s : State k) (t : Tally) → weigh s.choices < n → Ends (again s t)) where
    try_option-Ends :
        (f : Formula) (fs : Formulas) (s : State k) (u : Tally) (o : Option (State k))
        → apply k f s ≡ o
        → weigh s.choices + size f < n
        → ((t : Tally) → Ends (branch k pick accepts again fs s t))
        → Ends (try_option k pick accepts again (branch k pick accepts again fs s) o u)
    unfolding try_option
    try_option-Ends f fs s u none e h rest = rest u
    try_option-Ends f fs s u (some s1) e h rest =
        let w = apply-weighs k f s s1 e in
        or_else-Ends (again s1 u) (branch k pick accepts again fs s) (ends s1 u (omega arith)) rest

    with_budget-Ends :
        (body : Tally → Answer × Tally) (b : ℕ) (t : Tally)
        → ((t : Tally) → Ends (body t))
        → Ends (with_budget k pick accepts body b t)
    unfolding with_budget
    with_budget-Ends body zero t h = λ e. cc
    with_budget-Ends body (suc b) t h = h (record { branches = b; inconclusive = t.inconclusive })

    branch-Ends :
        (fs : Formulas) (s : State k)
        → weigh s.choices + sizes fs < n
        → (t : Tally) → Ends (branch k pick accepts again fs s t)
    unfolding branch size
    branch-Ends no_formulas s h t = λ e. cc
    branch-Ends (formulas f fs) s h t =
        let rest = branch-Ends fs s (omega arith) in
        with_budget-Ends
          (try_option k pick accepts again (branch k pick accepts again fs s) (apply k f s))
          t.branches t (λ u. try_option-Ends f fs s u (apply k f s) refl (omega arith) rest)

    smaller :
        (c : Formulas) (cs : List Formulas)
        → suc (sizes (fewest c cs).0 + weigh (fewest c cs).1) ≡ suc (sizes c + weigh cs)
        → weigh (c ∷ cs) < suc n
        → weigh (fewest c cs).1 + sizes (fewest c cs).0 < n
    unfolding weigh
    smaller c cs w h = omega arith

    decide_state-Ends :
        (s : State k) (cs : List Formulas) (t : Tally)
        → weigh cs < suc n
        → Ends (decide_state k pick accepts again s cs t)
    unfolding decide_state
    decide_state-Ends s [] t h = conclude-Ends (pick s) t
    decide_state-Ends s (c ∷ cs) t h =
        let w = fewest-weighs c cs in
        branch-Ends (fewest c cs).0 (with_choices k s (fewest c cs).1) (smaller c cs w h) t

    after_propagation-Ends :
        (m : ℕ) (o : Propagation k) (t : Tally)
        → m < suc n
        → Propagated k m o
        → Ends (after_propagation k pick accepts again o t)
    unfolding after_propagation Propagated
    after_propagation-Ends m contradiction t h p = λ e. cc
    after_propagation-Ends m unfinished t h p = absurd p
    after_propagation-Ends m (stable s) t h p = decide_state-Ends s s.choices t (omega arith)

  -- With a depth above the number of nodes of the choices, `solve` comes to an end: it finds values
  -- or finds none.
  pub solve-ends :
      (n : ℕ) (s : State k) (t : Tally)
      → weigh s.choices < n
      → (solve k pick accepts n s t).0 ≢ too_deep
  unfolding solve
  solve-ends zero s t h = absurd (omega arith)
  solve-ends (suc n) s t h =
      after_propagation-Ends n (solve k pick accepts n) (solve-ends n) (weigh s.choices)
        (propagate k (suc (weigh s.choices)) s) t h
        (propagate-ends k (suc (weigh s.choices)) s (omega arith))
