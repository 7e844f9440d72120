-- ===== src/Driver/Verdicts.antt =====
-- The verdict NEQ of `disprove` of src/parseval/main.py.
use par_seval.Common.{
  ◌≡◌, refl, sym, ap, ◌∙◌, Bool, true, false, ◌&&◌, ◌||◌, Bool-cases, inl, inr, none, some, List,
  [], ◌∷◌, ◌++◌, if◌then◌else◌, ◌==◌,
}
use mathlib.Core.Path.{subst}
use par_seval.Driver.{
  Result, out_of_time, differ, Instance, Ending, raised, finished, Generation, Verdict, neq,
  unknown, syntax_error, timeout, RunResult, Search, Parsing, unparsed, parsed, is_message, check,
  offer, doubt_of, judge, has_timeout, conclude, search, settle, disprove_from, disprove,
}

module _ (run : Instance → Result × Result) (ordered set_semantics : Bool) where
  -- The results of the last database that is checked.
  abbrev pub last_results : Result × Result → List Instance → Result × Result
  last_results r [] = r
  last_results r (i ∷ is) = last_results (run i) is

  abbrev pub TellsApart : Instance → Type 0
  TellsApart i = differ ordered set_semantics (run i).0 (run i).1 ≡ true

  abbrev pub AgreeOn : Instance → Type 0
  AgreeOn i = differ ordered set_semantics (run i).0 (run i).1 ≡ false

  abbrev pub AllAgree : List Instance → Type 0
  AllAgree [] = Unit
  AllAgree (i ∷ is) = AgreeOn i × AllAgree is

  -- A generation that `on_instance` stops returns its database.
  abbrev pub KeepsDatabase : List Generation → Type 0
  KeepsDatabase [] = Unit
  KeepsDatabase (g ∷ gs) = ((b : Bool) × (g.ending true ≡ finished true b)) × KeepsDatabase gs

  abbrev pub IsCounterexample : RunResult → Type 0
  IsCounterexample r =
      (i : Instance) × (r.counterexample ≡ some i) × (r.results ≡ some (run i)) × TellsApart i

  -- What offering versions leaves: a version that tells the queries apart, or none.
  pub data Offered (s : Search) (is : List Instance) : Bool × Search → Type 0 where
    stopped :
        (i : Instance)
        → TellsApart i
        → Offered s is (true, record { counterexample = some i; results = run i })
    agreed :
        (t : Search)
        → t.counterexample ≡ s.counterexample
        → t.results ≡ last_results s.results is
        → AllAgree is
        → Offered s is (false, t)

  pub offered :
      (is : List Instance) (s : Search) → Offered s is (offer run ordered set_semantics is s)
  unfolding offer check
  offered [] s = agreed s refl refl tt
  offered (i ∷ is) s = elim (Bool-cases (differ ordered set_semantics (run i).0 (run i).1)) [
    | inl e ↦ rw e (stopped i e)
    | inr e ↦
        rw e (extend (offered is (record { counterexample = s.counterexample; results = run i })) e)
  ]
    where
      extend :
          {o : Bool × Search}
          → Offered (record { counterexample = s.counterexample; results = run i }) is o
          → AgreeOn i
          → Offered s (i ∷ is) o
      extend (stopped j d) e = stopped j d
      extend (agreed t c l a) e = agreed t c l (e, a)

  conclude-neq :
      (doubts : List Verdict) → (conclude run ordered set_semantics doubts).verdict ≡ neq → ⊥
  unfolding conclude
  conclude-neq [] h = cc
  conclude-neq (v ∷ vs) h = elim (Bool-cases (has_timeout run ordered set_semantics (v ∷ vs))) [
    | inl e ↦ cc (rw e at h)
    | inr e ↦ cc (rw e at h)
  ]

  judge-next :
      (e : Ending) (t : Search) (doubts : List Verdict) (next : List Verdict → RunResult)
      → t.counterexample ≡ none
      → (ds : List Verdict) × (judge run ordered set_semantics e t doubts next ≡ next ds)
  unfolding judge
  judge-next raised t doubts next h = (doubts ++ unknown ∷ [], refl)
  judge-next (finished false b) t doubts next h =
      (doubts ++ (if b then timeout else unknown) ∷ [], refl)
  judge-next (finished true b) t doubts next h =
      (doubts ++ doubt_of run ordered set_semantics b t.results, rw h refl)

  search-neq :
      (gs : List Generation) (s : Search) (doubts : List Verdict)
      → KeepsDatabase gs
      → s.counterexample ≡ none
      → (search run ordered set_semantics gs s doubts).verdict ≡ neq
      → IsCounterexample (search run ordered set_semantics gs s doubts)
  unfolding search
  search-neq [] s doubts k n h = absurd (conclude-neq doubts h)
  search-neq (g ∷ gs) s doubts k n h =
      round (λ t ds e. search-neq gs t ds k.1 e) (offered g.versions s) h
    where
      round :
          ((t : Search) (ds : List Verdict)
            → t.counterexample ≡ none
            → (search run ordered set_semantics gs t ds).verdict ≡ neq
            → IsCounterexample (search run ordered set_semantics gs t ds))
          → {o : Bool × Search} → Offered s g.versions o
          → (judge run ordered set_semantics
              (g.ending o.0)
              o.1
              doubts
              (search run ordered set_semantics gs o.1)).verdict
            ≡ neq
          → IsCounterexample (
              judge run ordered set_semantics
                (g.ending o.0)
                o.1
                doubts
                (search run ordered set_semantics gs o.1))
      round later (stopped i d) h = rw k.0.1 (unfold judge in (i, refl, refl, d))
      round later (agreed t c l a) h =
          let (ds, e) =
            judge-next (g.ending false) t doubts (search run ordered set_semantics gs t) (c ∙ n) in
          rw e (later t ds (c ∙ n) (rw e at h))

  settle-neq-found :
      (p : Bool) (i : Instance) (gs : List Generation)
      → TellsApart i
      → (settle run ordered set_semantics p gs
          (record { counterexample = some i; results = run i })).verdict
        ≡ neq
      → IsCounterexample (
          settle run ordered set_semantics p gs
            (record { counterexample = some i; results = run i }))
  unfolding settle
  settle-neq-found p i gs d h = elim (Bool-cases (is_message (run i).0 || is_message (run i).1)) [
    | inl m ↦ cc (rw m at h)
    | inr m ↦ rw m (i, refl, refl, d)
  ]

  pub settle-none :
      (v : Verdict) (p : Bool) (r : Result × Result) (gs : List Generation)
      → (v ≡ syntax_error → ⊥)
      → (v ≡ unknown → ⊥)
      → (settle run ordered set_semantics p gs
          (record { counterexample = none; results = r })).verdict
        ≡ v
      → settle run ordered set_semantics p gs (record { counterexample = none; results = r })
        ≡ search run ordered set_semantics gs (record { counterexample = none; results = r }) []
  unfolding settle
  settle-none v p r gs not_error not_unknown h =
      elim (Bool-cases (is_message r.0 || is_message r.1)) [
        | inl m ↦ absurd (not_error (sym (rw m at h)))
        | inr m ↦ elim (Bool-cases p) [
          | inl q ↦ rw (m, q) refl
          | inr q ↦ absurd (not_unknown (sym (rw (m, q) at h)))
        ]
      ]

  pub check-true :
      (i : Instance) (s : Search)
      → TellsApart i
      → check run ordered set_semantics i s
        ≡ (true, record { counterexample = some i; results = run i })
  unfolding check
  check-true i s d = rw d refl

  pub check-false :
      (i : Instance) (s : Search)
      → AgreeOn i
      → check run ordered set_semantics i s
        ≡ (false, record { counterexample = s.counterexample; results = run i })
  unfolding check
  check-false i s d = rw d refl

  -- Everything after the empty database has been checked.
  from-neq :
      (p : Bool) (empty : Instance) (gs : List Generation)
      → KeepsDatabase gs
      → (disprove_from run ordered set_semantics p empty gs).verdict ≡ neq
      → IsCounterexample (disprove_from run ordered set_semantics p empty gs)
  unfolding disprove_from
  from-neq p empty gs k =
      elim (Bool-cases (differ ordered set_semantics (run empty).0 (run empty).1)) [
        | inl d ↦
            subst
              (λ o.
                (settle run ordered set_semantics p gs o.1).verdict ≡ neq
                → IsCounterexample (settle run ordered set_semantics p gs o.1))
              (sym (
                check-true empty
                  (record { counterexample = none; results = (out_of_time, out_of_time) }) d))
              (settle-neq-found p empty gs d)
        | inr d ↦
            subst
              (λ o.
                (settle run ordered set_semantics p gs o.1).verdict ≡ neq
                → IsCounterexample (settle run ordered set_semantics p gs o.1))
              (sym (
                check-false empty
                  (record { counterexample = none; results = (out_of_time, out_of_time) }) d))
              (λ h.
                let e = settle-none neq p (run empty) gs (λ q. cc) (λ q. cc) h in
                subst IsCounterexample (sym e) (
                  search-neq gs (record { counterexample = none; results = run empty }) [] k refl
                    (sym (ap (λ r. r.verdict) e) ∙ h)))
      ]

-- Whether both queries are parsed and ordered, so that their outputs are compared as lists.
abbrev pub both_ordered : Parsing → Bool
both_ordered unparsed = false
both_ordered (parsed n1 o1 n2 o2) = o1 && o2

-- When a generation that is stopped returns its database, a verdict NEQ comes with a database on
-- which the two queries give the reported results, and these differ.
pub disprove-neq :
    (run : Instance → Result × Result) (set_semantics : Bool) (p : Parsing) (empty : Instance)
    (gs : List Generation)
    → KeepsDatabase run (both_ordered p) set_semantics gs
    → (disprove run set_semantics p empty gs).verdict ≡ neq
    → IsCounterexample run (both_ordered p) set_semantics (disprove run set_semantics p empty gs)
unfolding disprove
disprove-neq run set_semantics unparsed empty gs k h =
    from-neq run false set_semantics false empty gs k h
disprove-neq run set_semantics (parsed n1 o1 n2 o2) empty gs k h =
    elim (Bool-cases (n1 == 1 && n2 == 1)) [
      | inl e ↦ rw e (from-neq run (o1 && o2) set_semantics true empty gs k (rw e at h))
      | inr e ↦ cc (rw e at h)
    ]
