-- ===== src/Smt/Search/Measure.antt =====
-- The loop of `propagate` in src/parseval/smt/csp.py ends: each round that changes anything makes the
-- choices smaller.
use par_seval.Common.{
  ℕ, zero, suc, ◌+◌, ◌≤◌, ◌<◌, ◌≡◌, refl, ap, Bool, true, false, ◌||◌, ltb→lt, Bool-cases, inl, inr,
  arith, Option, none, some, List, [], ◌∷◌, ◌++◌, if◌then◌else◌, ltb, leb,
}
use mathlib.Core.Option.{some-injective}
use par_seval.Common.Options.{◌>>=◌, >>=-eq-some}
use par_seval.Smt.Formula.{
  Formula, known, atom, conjunction, disjunction, Formulas, no_formulas, formulas, Test, eq_var,
  ne_var,
}
use par_seval.Smt.Search.{
  Spaces, State, count, fewest, with_choices, add_link, narrow_input, apply_atom, apply, apply_all,
  any_entailed, viable, settle, settle_one, round, Propagation, contradiction, unfinished, stable,
  propagate,
}

unfoldable mutual
  pub size : Formula → ℕ
  size (known b) = 1
  size (atom x t) = 1
  size (conjunction fs) = suc (sizes fs)
  size (disjunction fs) = suc (sizes fs)

  pub sizes : Formulas → ℕ
  sizes no_formulas = 0
  sizes (formulas f fs) = size f + sizes fs

-- The nodes of all choices.
unfoldable pub weigh : List Formulas → ℕ
unfolding size
weigh [] = 0
weigh (c ∷ cs) = suc (sizes c + weigh cs)

size_pos : (f : Formula) → 1 ≤ size f
unfolding size
size_pos (known b) = omega arith
size_pos (atom x t) = omega arith
size_pos (conjunction fs) = omega arith
size_pos (disjunction fs) = omega arith

pub weigh-append : (xs ys : List Formulas) → weigh (xs ++ ys) ≡ weigh xs + weigh ys
unfolding weigh
weigh-append [] ys = omega arith
weigh-append (x ∷ xs) ys = omega (arith, weigh-append xs ys)

pub weigh-add :
    (xs : List Formulas) (c : Formulas) → weigh (xs ++ c ∷ []) ≡ suc (weigh xs + sizes c)
weigh-add xs c = let e = weigh-append xs (c ∷ []) in unfold weigh in omega (arith, e)

-- The choice taken and the ones left weigh what all did.
pub fewest-weighs :
    (c : Formulas) (cs : List Formulas)
    → suc (sizes (fewest c cs).0 + weigh (fewest c cs).1) ≡ suc (sizes c + weigh cs)
unfolding fewest weigh
fewest-weighs c [] = refl
fewest-weighs c (d ∷ ds) = elim (Bool-cases (leb (count c) (count (fewest d ds).0))) [
  | inl e ↦ rw e refl
  | inr e ↦ rw e (omega (arith, fewest-weighs d ds))
]

abbrev one_if : Bool → ℕ
one_if true = 1
one_if false = 0

one_if-|| : (a b : Bool) → one_if (a || b) ≤ one_if a + one_if b
one_if-|| true b = omega arith
one_if-|| false b = omega arith

guarded {ℓ} : {A : Type ℓ} (b : Bool) (x y : A) → (if b then some x else none) ≡ some y → x ≡ y
guarded true x y h = cc
guarded false x y h = cc

module _ (k : Spaces) where
  atom-choices :
      (x : ℕ) (t : Test) (s s1 : State k) → apply_atom k x t s ≡ some s1 → s.choices ≡ s1.choices
  unfolding apply_atom add_link narrow_input
  atom-choices x (eq_var y) s s1 h = ap (λ u. u.choices) (guarded _ _ s1 h)
  atom-choices x (ne_var y) s s1 h = ap (λ u. u.choices) (guarded _ _ s1 h)
  atom-choices x t s s1 h = ap (λ u. u.choices) (guarded _ _ s1 h)

  mutual
    unfolding apply size

    pub apply-weighs :
        (f : Formula) (s s1 : State k)
        → apply k f s ≡ some s1
        → weigh s1.choices ≤ weigh s.choices + size f
    apply-weighs (known true) s s1 h =
        let e = ap weigh (ap (λ u. u.choices) (some-injective _ _ h)) in omega (arith, e)
    apply-weighs (known false) s s1 h = cc
    apply-weighs (atom x t) s s1 h = let e = ap weigh (atom-choices x t s s1 h) in omega (arith, e)
    apply-weighs (conjunction fs) s s1 h = let e = apply_all-weighs fs s s1 h in omega (arith, e)
    apply-weighs (disjunction fs) s s1 h =
        let e = ap weigh (ap (λ u. u.choices) (some-injective _ _ h)) in
        omega (arith, e, weigh-add s.choices fs)

    apply_all-weighs :
        (fs : Formulas) (s s1 : State k)
        → apply_all k fs s ≡ some s1
        → weigh s1.choices ≤ weigh s.choices + sizes fs
    apply_all-weighs no_formulas s s1 h =
        let e = ap weigh (ap (λ u. u.choices) (some-injective _ _ h)) in omega (arith, e)
    apply_all-weighs (formulas f fs) s s1 h =
        let (s2, e, g) = >>=-eq-some (apply_all k fs s) (apply k f) h in
        omega (arith, apply_all-weighs fs s s2 e, apply-weighs f s2 s1 g)

  -- The options that an attempt keeps.
  unfoldable kept : Option (State k) → Formula → Formulas → Formulas
  kept none f fs = fs
  kept (some t) f fs = formulas f fs

  viable-kept :
      (s : State k) (f : Formula) (fs : Formulas)
      → viable k s (formulas f fs) ≡ kept (apply k f (with_choices k s [])) f (viable k s fs)
  unfolding viable kept
  viable-kept s f fs = go (apply k f (with_choices k s []))
    where
      go :
          (o : Option (State k))
          → (elim o as (λ _. Formulas) [
            | none ↦ viable k s fs
            | some _ ↦ formulas f (viable k s fs)
          ])
            ≡ kept o f (viable k s fs)
      go none = refl
      go (some t) = refl

  kept-weighs :
      (o : Option (State k)) (f : Formula) (vs : Formulas) (m n : ℕ)
      → sizes vs + n ≤ m + count vs
      → count vs ≤ n
      → (sizes (kept o f vs) + suc n ≤ size f + m + count (kept o f vs))
        × (count (kept o f vs) ≤ suc n)
  unfolding kept size count
  kept-weighs none f vs m n h l = (omega (arith, size_pos f), omega arith)
  kept-weighs (some t) f vs m n h l = (omega arith, omega arith)

  viable-weighs :
      (s : State k) (fs : Formulas)
      → (sizes (viable k s fs) + count fs ≤ sizes fs + count (viable k s fs))
        × (count (viable k s fs) ≤ count fs)
  unfolding size count
  viable-weighs s no_formulas = (unfold viable in omega arith, unfold viable in omega arith)
  viable-weighs s (formulas f fs) =
      let ih = viable-weighs s fs in
      let w =
        kept-weighs (apply k f (with_choices k s [])) f (viable k s fs) (sizes fs) (count fs) ih.0
          ih.1 in
      rw (viable-kept s f fs) w

  settle-weighs :
      (fs : Formulas) (n m : ℕ) (s : State k) (q : State k × Bool)
      → settle k fs n s ≡ some q
      → sizes fs + n ≤ m + count fs
      → count fs ≤ n
      → weigh q.0.choices + one_if q.1 ≤ weigh s.choices + suc m
  unfolding settle size count
  settle-weighs no_formulas n m s q h l c = cc
  settle-weighs (formulas f no_formulas) n m s q h l c =
      let (t, e, g) = >>=-eq-some (apply k f s) (λ t. some (t, true)) h in
      let a = ap (λ q. weigh q.0.choices + one_if q.1) (some-injective _ _ g) in
      omega (arith, apply-weighs f s t e, a)
  settle-weighs (formulas f (formulas g fs)) n m s q h l c =
      let a = ap (λ q. weigh q.0.choices + one_if q.1) (some-injective _ _ h) in
      let b = weigh-add s.choices (formulas f (formulas g fs)) in
      let vs = formulas f (formulas g fs) in
      elim (Bool-cases (ltb (count vs) n)) [
        | inl e ↦ omega (arith, a, b, ap one_if e, ltb→lt (count vs) n e)
        | inr e ↦ omega (arith, a, b, ap one_if e)
      ]

  settle_one-weighs :
      (s : State k) (fs : Formulas) (q : State k × Bool)
      → settle_one k s fs ≡ some q
      → weigh q.0.choices + one_if q.1 ≤ weigh s.choices + suc (sizes fs)
  unfolding settle_one
  settle_one-weighs s fs q h = elim (Bool-cases (any_entailed k s fs)) [
    | inl e ↦
        let a = ap (λ q. weigh q.0.choices + one_if q.1) (some-injective _ _ (rw e at h)) in
        omega (arith, a)
    | inr e ↦
        let w = viable-weighs s fs in
        settle-weighs (viable k s fs) (count fs) (sizes fs) s q (rw e at h) w.0 w.1
  ]

  -- A round loses a node where it changes something.
  round-weighs :
      (cs : List Formulas) (s : State k) (r : State k × Bool)
      → round k cs s ≡ some r
      → weigh r.0.choices + one_if r.1 ≤ weigh s.choices + weigh cs
  unfolding round weigh
  round-weighs [] s r h =
      let a = ap (λ q. weigh q.0.choices + one_if q.1) (some-injective _ _ h) in omega (arith, a)
  round-weighs (c ∷ cs) s r h =
      let (q, e, g) =
        >>=-eq-some (settle_one k s c) (λ q. round k cs q.0 >>= λ r. some (r.0, q.1 || r.1)) h in
      let (t, f, g2) = >>=-eq-some (round k cs q.0) (λ r. some (r.0, q.1 || r.1)) g in
      let a = ap (λ q. weigh q.0.choices + one_if q.1) (some-injective _ _ g2) in
      omega (arith, a, one_if-|| q.1 t.1, settle_one-weighs s c q e, round-weighs cs q.0 t f)

  first_round-weighs :
      (s : State k) (r : State k × Bool)
      → round k s.choices (with_choices k s []) ≡ some r
      → weigh r.0.choices + one_if r.1 ≤ weigh s.choices
  unfolding weigh
  first_round-weighs s r h = omega (arith, round-weighs s.choices (with_choices k s []) r h)

  -- What `propagate` gives when its rounds are enough: not `unfinished`, and no larger state.
  unfoldable pub Propagated : ℕ → Propagation k → Type 0
  Propagated m contradiction = Unit
  Propagated m unfinished = ⊥
  Propagated m (stable s) = weigh s.choices ≤ m

  Propagated-mono : (m n : ℕ) (o : Propagation k) → m ≤ n → Propagated m o → Propagated n o
  unfolding Propagated
  Propagated-mono m n contradiction h p = tt
  Propagated-mono m n unfinished h p = p
  Propagated-mono m n (stable s) h p = omega arith

  module _ (n : ℕ)
      (again : (t : State k)
        → weigh t.choices < n
        → Propagated (weigh t.choices) (propagate k n t)) where
    ended :
        (s : State k) (q : State k × Bool)
        → weigh s.choices < suc n
        → round k s.choices (with_choices k s []) ≡ some q
        → Propagated
            (weigh s.choices)
            (elim q.1 as (λ _. Propagation k) [ true ↦ propagate k n q.0 | false ↦ stable q.0 ])
    ended s (t, true) h e =
        let w = first_round-weighs s (t, true) e in
        Propagated-mono (weigh t.choices) (weigh s.choices) (propagate k n t) (omega arith)
          (again t (omega arith))
    ended s (t, false) h e =
        let w = first_round-weighs s (t, false) e in unfold Propagated in omega arith

    rounds-end :
        (s : State k) (o : Option (State k × Bool))
        → weigh s.choices < suc n
        → round k s.choices (with_choices k s []) ≡ o
        → Propagated (weigh s.choices) (elim o as (λ _. Propagation k) [
          | none ↦ contradiction
          | some q ↦ elim q.1 [ true ↦ propagate k n q.0 | false ↦ stable q.0 ]
        ])
    rounds-end s none h e = unfold Propagated in tt
    rounds-end s (some q) h e = ended s q h e

  -- With more rounds than the choices have nodes, `propagate` ends, in a contradiction or in a state
  -- whose choices have no more nodes than those it was given.
  pub propagate-ends :
      (n : ℕ) (s : State k) → weigh s.choices < n → Propagated (weigh s.choices) (propagate k n s)
  unfolding propagate
  propagate-ends zero s h = absurd (omega arith)
  propagate-ends (suc n) s h =
      rounds-end n (propagate-ends n) s (round k s.choices (with_choices k s [])) h refl
