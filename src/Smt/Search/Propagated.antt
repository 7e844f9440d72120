-- ===== src/Smt/Search/Propagated.antt =====
-- `propagate` of src/parseval/smt/csp.py keeps every assignment that satisfies the state.
use par_seval.Common.{
  ℕ, zero, suc, ◌≡◌, Bool, true, false, ◌||◌, Bool-cases, inl, inr, arith, Option, none, some, List,
  [], ◌∷◌,
}
use par_seval.Common.Options.{◌>>=◌}
use par_seval.Scalar.Evaluate.{Runtime, Assignment}
use par_seval.Smt.Formula.{Formula, Formulas, no_formulas, formulas, holds, any_holds}
use par_seval.Smt.Search.{
  Spaces, State, with_choices, apply, viable, settle, settle_one, count, any_entailed, round,
  Propagation, contradiction, unfinished, stable, propagate,
}
use par_seval.Smt.Search.Sound.{
  IsSound, AllOpen, Satisfies, Kept, with_choices-Satisfies, add_choice-Satisfies, apply-Kept,
}

module _ (k : Spaces) (r : Runtime) (env : Assignment) (ok : IsSound k r env) where
  viable-one :
      (o : Option (State k)) (f : Formula) (vs : Formulas)
      → (holds r env f ≡ true → Kept k r env ok o)
      → holds r env f || any_holds r env vs ≡ true
      → any_holds r env (elim o as (λ _. Formulas) [ none ↦ vs | some _ ↦ formulas f vs ]) ≡ true
  unfolding Kept holds
  viable-one none f vs h a = elim (Bool-cases (holds r env f)) [
    | inl e ↦ absurd (h e)
    | inr e ↦ rw e at a
  ]
  viable-one (some s) f vs h a = a

  or_mono : (a b c : Bool) → (b ≡ true → c ≡ true) → a || b ≡ true → a || c ≡ true
  or_mono a b c h g = ground arith

  -- Of the options that hold, none is dropped.
  viable-holds :
      (s : State k) (fs : Formulas)
      → Satisfies k r env ok s
      → any_holds r env fs ≡ true
      → any_holds r env (viable k s fs) ≡ true
  unfolding viable holds
  viable-holds s no_formulas h a = a
  viable-holds s (formulas f fs) h a =
      viable-one (apply k f (with_choices k s [])) f (viable k s fs)
        (apply-Kept k r env ok f (with_choices k s [])
          (with_choices-Satisfies k r env ok s [] h (unfold AllOpen in tt)))
        (or_mono (holds r env f) (any_holds r env fs) (any_holds r env (viable k s fs))
          (viable-holds s fs h) a)

  -- What a round gives.
  unfoldable KeptFirst : Option (State k × Bool) → Type 0
  KeptFirst none = ⊥
  KeptFirst (some q) = Satisfies k r env ok q.0

  KeptFirst-bind :
      (o : Option (State k × Bool)) (f : State k × Bool → Option (State k × Bool))
      → KeptFirst o
      → ((q : State k × Bool) → Satisfies k r env ok q.0 → KeptFirst (f q))
      → KeptFirst (o >>= f)
  unfolding KeptFirst
  KeptFirst-bind none f h g = h
  KeptFirst-bind (some q) f h g = g q h

  flagged-KeptFirst :
      (o : Option (State k)) (b : Bool) → Kept k r env ok o → KeptFirst (o >>= λ t. some (t, b))
  unfolding Kept KeptFirst
  flagged-KeptFirst none b h = h
  flagged-KeptFirst (some t) b h = h

  settle-KeptFirst :
      (fs : Formulas) (n : ℕ) (s : State k)
      → Satisfies k r env ok s
      → any_holds r env fs ≡ true
      → KeptFirst (settle k fs n s)
  unfolding settle holds
  settle-KeptFirst no_formulas n s h a = cc
  settle-KeptFirst (formulas f no_formulas) n s h a =
      flagged-KeptFirst (apply k f s) true (apply-Kept k r env ok f s h (ground arith))
  settle-KeptFirst (formulas f (formulas g fs)) n s h a =
      unfold KeptFirst in add_choice-Satisfies k r env ok s (formulas f (formulas g fs)) h a

  settle_one-KeptFirst :
      (s : State k) (c : Formulas)
      → Satisfies k r env ok s
      → any_holds r env c ≡ true
      → KeptFirst (settle_one k s c)
  unfolding settle_one
  settle_one-KeptFirst s c h a = elim (Bool-cases (any_entailed k s c)) [
    | inl e ↦ rw (settle_one, e) (unfold KeptFirst in h)
    | inr e ↦
        rw (settle_one, e) (settle-KeptFirst (viable k s c) (count c) s h (viable-holds s c h a))
  ]

  round-KeptFirst :
      (cs : List Formulas) (s : State k)
      → Satisfies k r env ok s
      → AllOpen k r env ok cs
      → KeptFirst (round k cs s)
  unfolding round AllOpen
  round-KeptFirst [] s h a = unfold KeptFirst in h
  round-KeptFirst (c ∷ cs) s h a =
      KeptFirst-bind (settle_one k s c) (λ q. round k cs q.0 >>= λ r. some (r.0, q.1 || r.1))
        (settle_one-KeptFirst s c h a.0)
        (λ q g.
          KeptFirst-bind (round k cs q.0) (λ r. some (r.0, q.1 || r.1))
            (round-KeptFirst cs q.0 g a.1) (λ t u. unfold KeptFirst in u))

  -- A satisfied state is no contradiction, and what comes of it is satisfied.
  unfoldable pub Remains : Propagation k → Type 0
  Remains contradiction = ⊥
  Remains unfinished = Unit
  Remains (stable s) = Satisfies k r env ok s

  after_round :
      (n : ℕ) (o : Option (State k × Bool))
      → KeptFirst o
      → ((s : State k) → Satisfies k r env ok s → Remains (propagate k n s))
      → Remains (elim o as (λ _. Propagation k) [
        | none ↦ contradiction
        | some q ↦ elim q.1 [ true ↦ propagate k n q.0 | false ↦ stable q.0 ]
      ])
  unfolding KeptFirst
  after_round n none h again = absurd h
  after_round n (some (s, true)) h again = again s h
  after_round n (some (s, false)) h again = unfold Remains in h

  pub propagate-Remains : (n : ℕ) (s : State k) → Satisfies k r env ok s → Remains (propagate k n s)
  unfolding propagate
  propagate-Remains zero s h = unfold Remains in tt
  propagate-Remains (suc n) s h =
      after_round n (round k s.choices (with_choices k s []))
        (round-KeptFirst s.choices (with_choices k s [])
          (with_choices-Satisfies k r env ok s [] h (unfold AllOpen in tt)) h.open_choices)
        (propagate-Remains n)
