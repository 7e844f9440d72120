-- ===== src/Smt/Search/Solve/Unsatisfiable.antt =====
-- When `search` of src/parseval/smt/csp.py raises Unsatisfiable, the requirements cannot hold.
use par_seval.Common.{
  ℕ, zero, suc, ◌≡◌, refl, Bool, true, Bool-cases, inl, inr, arith, Option, none, some, List, [],
  ◌∷◌, leb,
}
use par_seval.Scalar.Evaluate.{Runtime, Assignment}
use par_seval.Smt.Formula.{Formulas, no_formulas, formulas, holds, any_holds}
use par_seval.Smt.Search.{
  Spaces, State, with_choices, count, fewest, apply, Propagation, contradiction, unfinished, stable,
  propagate,
}
use par_seval.Smt.Search.Measure.{weigh}
use par_seval.Smt.Search.Sound.{
  IsSound, AllOpen, Satisfies, Kept, with_choices-Satisfies, apply-Kept,
}
use par_seval.Smt.Search.Propagated.{Remains, propagate-Remains}
use par_seval.Smt.Search.Solve.{
  Tally, Picks, Answer, found, nothing, too_deep, conclude, or_else, with_budget, try_option,
  branch, decide_state, after_propagation, solve,
}

module _ (k : Spaces) (pick : State k → Option Picks) (accepts : Picks → Bool) where
  -- The search has noted that it proves nothing.
  abbrev IsNoted : Tally → Type 0
  IsNoted t = t.inconclusive ≡ true

  module _ (again : State k → Tally → Answer × Tally)
      (stays : (s : State k) (t : Tally) → IsNoted t → IsNoted (again s t).1) where
    or_else-stays :
        (q : Answer × Tally) (next : Tally → Answer × Tally)
        → IsNoted q.1
        → ((t : Tally) → IsNoted t → IsNoted (next t).1)
        → IsNoted (or_else k pick accepts q next).1
    unfolding or_else
    or_else-stays (found a, t) next h n = h
    or_else-stays (nothing, t) next h n = n t h
    or_else-stays (too_deep, t) next h n = h

    try_option-stays :
        (next : Tally → Answer × Tally) (o : Option (State k)) (t : Tally)
        → IsNoted t
        → ((t : Tally) → IsNoted t → IsNoted (next t).1)
        → IsNoted (try_option k pick accepts again next o t).1
    unfolding try_option
    try_option-stays next none t h n = n t h
    try_option-stays next (some s) t h n = or_else-stays (again s t) next (stays s t h) n

    with_budget-stays :
        (body : Tally → Answer × Tally) (b : ℕ) (t : Tally)
        → IsNoted t
        → ((t : Tally) → IsNoted t → IsNoted (body t).1)
        → IsNoted (with_budget k pick accepts body b t).1
    unfolding with_budget
    with_budget-stays body zero t h n = refl
    with_budget-stays body (suc b) t h n =
        n (record { branches = b; inconclusive = t.inconclusive }) h

    pub branch-stays :
        (fs : Formulas) (s : State k) (t : Tally)
        → IsNoted t
        → IsNoted (branch k pick accepts again fs s t).1
    unfolding branch
    branch-stays no_formulas s t h = h
    branch-stays (formulas f fs) s t h =
        with_budget-stays
          (try_option k pick accepts again (branch k pick accepts again fs s) (apply k f s))
          t.branches t h
          (λ u g.
            try_option-stays (branch k pick accepts again fs s) (apply k f s) u g
              (branch-stays fs s))

    conclude-stays :
        (o : Option Picks) (t : Tally) → IsNoted t → IsNoted (conclude k pick accepts o t).1
    unfolding conclude
    conclude-stays none t h = refl
    conclude-stays (some a) t h = elim (Bool-cases (accepts a)) [
      | inl e ↦ rw (conclude, e) h
      | inr e ↦ rw (conclude, e) refl
    ]

    after_propagation-stays :
        (o : Propagation k) (t : Tally)
        → IsNoted t
        → IsNoted (after_propagation k pick accepts again o t).1
    unfolding after_propagation
    after_propagation-stays contradiction t h = h
    after_propagation-stays unfinished t h = h
    after_propagation-stays (stable s) t h = go s.choices
      where
        go : (cs : List Formulas) → IsNoted (decide_state k pick accepts again s cs t).1
        go [] = unfold decide_state in conclude-stays (pick s) t h
        go (c ∷ cs) =
            unfold decide_state in
            branch-stays (fewest c cs).0 (with_choices k s (fewest c cs).1) t h

  -- The note is never dropped.
  solve-stays :
      (n : ℕ) (s : State k) (t : Tally) → IsNoted t → IsNoted (solve k pick accepts n s t).1
  unfolding solve
  solve-stays zero s t h = h
  solve-stays (suc n) s t h =
      after_propagation-stays (solve k pick accepts n) (solve-stays n)
        (propagate k (suc (weigh s.choices)) s) t h

  -- An answer that agrees with an assignment: values, or nothing with the note.
  unfoldable pub Allows : Answer × Tally → Type 0
  Allows (nothing, t) = IsNoted t
  Allows (found a, t) = Unit
  Allows (too_deep, t) = Unit

  noted-Allows : (q : Answer × Tally) → IsNoted q.1 → Allows q
  unfolding Allows
  noted-Allows (nothing, t) h = h
  noted-Allows (found a, t) h = tt
  noted-Allows (too_deep, t) h = tt

  conclude-Allows : (o : Option Picks) (t : Tally) → Allows (conclude k pick accepts o t)
  unfolding conclude
  conclude-Allows none t = unfold Allows in refl
  conclude-Allows (some a) t = elim (Bool-cases (accepts a)) [
    | inl e ↦ rw (conclude, e) (unfold Allows in tt)
    | inr e ↦ rw (conclude, e) (unfold Allows in refl)
  ]

  module _ (r : Runtime) (env : Assignment) (ok : IsSound k r env) where
    AllOpen-fewest :
        (c : Formulas) (cs : List Formulas)
        → any_holds r env c ≡ true
        → AllOpen k r env ok cs
        → (any_holds r env (fewest c cs).0 ≡ true) × AllOpen k r env ok (fewest c cs).1
    unfolding fewest AllOpen
    AllOpen-fewest c [] h g = (h, g)
    AllOpen-fewest c (d ∷ ds) h g =
        let ih = AllOpen-fewest d ds g.0 g.1 in
        elim (Bool-cases (leb (count c) (count (fewest d ds).0))) [
          | inl e ↦ rw e (h, g)
          | inr e ↦ rw e (ih.0, (h, ih.1))
        ]

    module _ (again : State k → Tally → Answer × Tally)
        (stays : (s : State k) (t : Tally) → IsNoted t → IsNoted (again s t).1)
        (allows : (s : State k) (t : Tally) → Satisfies k r env ok s → Allows (again s t)) where
      or_else-Allows :
          (q : Answer × Tally) (next : Tally → Answer × Tally)
          → Allows q
          → ((t : Tally) → IsNoted t → IsNoted (next t).1)
          → Allows (or_else k pick accepts q next)
      unfolding or_else Allows
      or_else-Allows (found a, t) next h n = tt
      or_else-Allows (too_deep, t) next h n = tt
      or_else-Allows (nothing, t) next h n = noted-Allows (next t) (n t h)

      or_else-next :
          (q : Answer × Tally) (next : Tally → Answer × Tally)
          → ((t : Tally) → Allows (next t))
          → Allows (or_else k pick accepts q next)
      unfolding or_else
      or_else-next (found a, t) next n = unfold Allows in tt
      or_else-next (too_deep, t) next n = unfold Allows in tt
      or_else-next (nothing, t) next n = n t

      try_option-next :
          (o : Option (State k)) (next : Tally → Answer × Tally) (t : Tally)
          → ((t : Tally) → Allows (next t))
          → Allows (try_option k pick accepts again next o t)
      unfolding try_option
      try_option-next none next t n = n t
      try_option-next (some s) next t n = or_else-next (again s t) next n

      try_option-Allows :
          (o : Option (State k)) (next : Tally → Answer × Tally) (t : Tally)
          → Kept k r env ok o
          → ((t : Tally) → IsNoted t → IsNoted (next t).1)
          → Allows (try_option k pick accepts again next o t)
      unfolding try_option Kept
      try_option-Allows none next t h n = absurd h
      try_option-Allows (some s) next t h n = or_else-Allows (again s t) next (allows s t h) n

      with_budget-Allows :
          (body : Tally → Answer × Tally) (b : ℕ) (t : Tally)
          → ((t : Tally) → Allows (body t))
          → Allows (with_budget k pick accepts body b t)
      unfolding with_budget
      with_budget-Allows body zero t n = unfold Allows in refl
      with_budget-Allows body (suc b) t n =
          n (record { branches = b; inconclusive = t.inconclusive })

      branch-Allows :
          (fs : Formulas) (s : State k)
          → Satisfies k r env ok s
          → any_holds r env fs ≡ true
          → (t : Tally) → Allows (branch k pick accepts again fs s t)
      unfolding branch holds
      branch-Allows no_formulas s h a t = cc
      branch-Allows (formulas f fs) s h a t =
          let next = branch k pick accepts again fs s in
          with_budget-Allows (try_option k pick accepts again next (apply k f s)) t.branches t
            (elim (Bool-cases (holds r env f)) [
              | inl e ↦ λ u.
                  try_option-Allows (apply k f s) next u (apply-Kept k r env ok f s h e)
                    (branch-stays again stays fs s)
              | inr e ↦
                  λ u. try_option-next (apply k f s) next u (branch-Allows fs s h (ground arith))
            ])

      decide_state-Allows :
          (s : State k) (cs : List Formulas) (t : Tally)
          → Satisfies k r env ok s
          → AllOpen k r env ok cs
          → Allows (decide_state k pick accepts again s cs t)
      unfolding decide_state AllOpen
      decide_state-Allows s [] t h a = conclude-Allows (pick s) t
      decide_state-Allows s (c ∷ cs) t h a =
          let b = AllOpen-fewest c cs a.0 a.1 in
          branch-Allows (fewest c cs).0 (with_choices k s (fewest c cs).1)
            (with_choices-Satisfies k r env ok s (fewest c cs).1 h b.1) b.0 t

      after_propagation-Allows :
          (o : Propagation k) (t : Tally)
          → Remains k r env ok o
          → Allows (after_propagation k pick accepts again o t)
      unfolding after_propagation Remains
      after_propagation-Allows contradiction t h = absurd h
      after_propagation-Allows unfinished t h = unfold Allows in tt
      after_propagation-Allows (stable s) t h = decide_state-Allows s s.choices t h h.open_choices

    -- From a state that some assignment satisfies, `solve` finds values or notes that it proves
    -- nothing.
    pub solve-Allows :
        (n : ℕ) (s : State k) (t : Tally)
        → Satisfies k r env ok s
        → Allows (solve k pick accepts n s t)
    unfolding solve
    solve-Allows zero s t h = unfold Allows in tt
    solve-Allows (suc n) s t h =
        after_propagation-Allows (solve k pick accepts n) (solve-stays n) (solve-Allows n)
          (propagate k (suc (weigh s.choices)) s) t
          (propagate-Remains k r env ok (suc (weigh s.choices)) s h)
