-- ===== src/Driver/Agreement.antt =====
-- The verdict EQ of `disprove` of src/parseval/main.py.
use par_seval.Common.{
  ℕ, ◌≡◌, ◌≢◌, refl, sym, ap, ◌∙◌, Bool, true, false, ◌&&◌, ◌||◌, Bool-cases, inl, inr, none, some,
  List, [], ◌∷◌, ◌++◌, if◌then◌else◌, ◌==◌,
}
use mathlib.Core.Path.{subst}
use par_seval.Driver.{
  Result, rows, message, out_of_time, differ, Instance, Ending, raised, finished, Generation,
  Verdict, eq, unknown, timeout, RunResult, Search, Parsing, unparsed, parsed, is_message,
  is_out_of_time, has_rows, doubt_of, judge, has_timeout, conclude, search, settle, disprove_from,
  disprove,
}
use par_seval.Driver.Compare.{Agree, differ-rows}
use par_seval.Driver.Verdicts.{
  last_results, AllAgree, KeepsDatabase, Offered, stopped, agreed, offered, settle-none, check-true,
  check-false, both_ordered,
}

append_empty : (ds vs : List Verdict) → ds ++ vs ≡ [] → (ds ≡ []) × (vs ≡ [])
append_empty [] vs h = (refl, h)
append_empty (d ∷ ds) vs h = cc

module _ (ordered set_semantics : Bool) where
  -- Two results that do not tell the queries apart: one ran out of time, both failed, or both are
  -- rows that agree.
  pub data Compatible : Result × Result → Type 0 where
    first_late : (b : Result) → Compatible (out_of_time, b)
    second_late : (a : Result) → Compatible (a, out_of_time)
    both_failed : (a b : List ℕ) → Compatible (message a, message b)
    same_rows : (xs ys : List ℕ) → Agree ordered set_semantics xs ys → Compatible (rows xs, rows ys)

  -- Both results are rows, these agree, and there is at least one.
  abbrev pub Answered : Result × Result → Type 0
  Answered r =
      (xs : List ℕ) × (ys : List ℕ) × (r ≡ (rows xs, rows ys))
      × Agree ordered set_semantics xs ys
      × (xs ++ ys ≢ [])

  differ-Compatible : (a b : Result) → differ ordered set_semantics a b ≡ false → Compatible (a, b)
  unfolding differ
  differ-Compatible out_of_time b h = first_late b
  differ-Compatible (rows xs) out_of_time h = second_late (rows xs)
  differ-Compatible (message a) out_of_time h = second_late (message a)
  differ-Compatible (message a) (message b) h = both_failed a b
  differ-Compatible (message a) (rows ys) h = cc
  differ-Compatible (rows xs) (message b) h = cc
  differ-Compatible (rows xs) (rows ys) h =
      same_rows xs ys ((differ-rows ordered set_semantics xs ys).0 (unfold differ in h))

module _ (run : Instance → Result × Result) (ordered set_semantics : Bool) where
  abbrev pub AllCompatible : List Instance → Type 0
  AllCompatible [] = Unit
  AllCompatible (i ∷ is) = Compatible ordered set_semantics (run i) × AllCompatible is

  -- What EQ rests on, generation by generation, from the results before: it is not stopped, returns a
  -- database before the time limit, and the last database checked by then has an answer.
  abbrev pub Evidence : Result × Result → List Generation → Type 0
  Evidence r [] = Unit
  Evidence r (g ∷ gs) =
      AllCompatible g.versions
      × (g.ending false ≡ finished true false)
      × Answered ordered set_semantics (last_results run ordered set_semantics r g.versions)
      × Evidence (last_results run ordered set_semantics r g.versions) gs

  all-AllCompatible :
      (is : List Instance) → AllAgree run ordered set_semantics is → AllCompatible is
  all-AllCompatible [] a = tt
  all-AllCompatible (i ∷ is) (d, a) =
      (differ-Compatible ordered set_semantics (run i).0 (run i).1 d, all-AllCompatible is a)

  -- The last results do not differ either.
  differ-last_results :
      (r : Result × Result) (is : List Instance)
      → differ ordered set_semantics r.0 r.1 ≡ false
      → AllAgree run ordered set_semantics is
      → differ ordered set_semantics
          (last_results run ordered set_semantics r is).0
          (last_results run ordered set_semantics r is).1
        ≡ false
  differ-last_results r [] d a = d
  differ-last_results r (i ∷ is) d (e, a) = differ-last_results (run i) is e a

  doubt_free :
      (b : Bool) (first second : Result)
      → differ ordered set_semantics first second ≡ false
      → doubt_of run ordered set_semantics b (first, second) ≡ []
      → (b ≡ false) × Answered ordered set_semantics (first, second)
  unfolding differ doubt_of is_out_of_time has_rows
  doubt_free b out_of_time second d h = cc
  doubt_free b (rows xs) out_of_time d h = cc
  doubt_free b (message m) out_of_time d h = cc
  doubt_free b (message m) (rows ys) d h = cc
  doubt_free b (rows xs) (message m) d h = cc
  doubt_free true (message m) (message n) d h = cc
  doubt_free false (message m) (message n) d h = cc
  doubt_free true (rows xs) (rows ys) d h = cc
  doubt_free false (rows []) (rows []) d h = cc
  doubt_free false (rows []) (rows (y ∷ ys)) d h =
      (refl, ([], y ∷ ys, refl, (differ-rows ordered set_semantics [] (y ∷ ys)).0 d, λ e. cc))
  doubt_free false (rows (x ∷ xs)) (rows ys) d h =
      (refl, (x ∷ xs, ys, refl, (differ-rows ordered set_semantics (x ∷ xs) ys).0 d, λ e. cc))

  conclude-eq :
      (doubts : List Verdict)
      → (conclude run ordered set_semantics doubts).verdict ≡ eq
      → doubts ≡ []
  unfolding conclude
  conclude-eq [] h = refl
  conclude-eq (v ∷ vs) h = elim (Bool-cases (has_timeout run ordered set_semantics (v ∷ vs))) [
    | inl e ↦ cc (rw e at h)
    | inr e ↦ cc (rw e at h)
  ]

  -- Without a counterexample the loop goes on, and it stays free of doubts only if the generation
  -- ends with a database in time and the last database has an answer.
  judge-doubts :
      (e : Ending) (t : Search) (doubts : List Verdict) (next : List Verdict → RunResult)
      → t.counterexample ≡ none
      → differ ordered set_semantics t.results.0 t.results.1 ≡ false
      → (ds : List Verdict) × (judge run ordered set_semantics e t doubts next ≡ next ds)
        × (ds ≡ []
            → (doubts ≡ []) × (e ≡ finished true false) × Answered ordered set_semantics t.results)
  unfolding judge
  judge-doubts raised t doubts next h d =
      (doubts ++ unknown ∷ [], refl, λ k. cc (append_empty doubts (unknown ∷ []) k).1)
  judge-doubts (finished false b) t doubts next h d = (
    doubts ++ (if b then timeout else unknown) ∷ [],
    refl,
    λ k. cc (append_empty doubts ((if b then timeout else unknown) ∷ []) k).1,
  )
  judge-doubts (finished true b) t doubts next h d = (
    doubts ++ doubt_of run ordered set_semantics b t.results,
    rw h refl,
    λ k.
        let (no_doubts, no_doubt) = append_empty doubts _ k in
        let (in_time, answer) = doubt_free b t.results.0 t.results.1 d no_doubt in
        (no_doubts, ap (finished true) in_time, answer),
  )

  judge-stopped :
      (e : Ending) (b : Bool) (i : Instance) (doubts : List Verdict)
      (next : List Verdict → RunResult)
      → e ≡ finished true b
      → (judge run ordered set_semantics e
          (record { counterexample = some i; results = run i })
          doubts
          next).verdict
        ≡ eq
      → ⊥
  unfolding judge
  judge-stopped e b i doubts next h k = cc (rw h at k)

  search-eq :
      (gs : List Generation) (s : Search) (doubts : List Verdict)
      → KeepsDatabase run ordered set_semantics gs
      → s.counterexample ≡ none
      → differ ordered set_semantics s.results.0 s.results.1 ≡ false
      → (search run ordered set_semantics gs s doubts).verdict ≡ eq
      → Evidence s.results gs × (doubts ≡ [])
  unfolding search
  search-eq [] s doubts k n d h = (tt, conclude-eq doubts h)
  search-eq (g ∷ gs) s doubts k n d h =
      round (λ t ds e q. search-eq gs t ds k.1 e q) (offered run ordered set_semantics g.versions s)
        h
    where
      round :
          ((t : Search) (ds : List Verdict)
            → t.counterexample ≡ none
            → differ ordered set_semantics t.results.0 t.results.1 ≡ false
            → (search run ordered set_semantics gs t ds).verdict ≡ eq
            → Evidence t.results gs × (ds ≡ []))
          → {o : Bool × Search} → Offered run ordered set_semantics s g.versions o
          → (judge run ordered set_semantics
              (g.ending o.0)
              o.1
              doubts
              (search run ordered set_semantics gs o.1)).verdict
            ≡ eq
          → Evidence s.results (g ∷ gs) × (doubts ≡ [])
      round later (stopped i e) h = absurd (judge-stopped (g.ending true) k.0.0 i doubts _ k.0.1 h)
      round later (agreed t c l a) h =
          let same : differ ordered set_semantics t.results.0 t.results.1 ≡ false =
            subst (λ r. differ ordered set_semantics r.0 r.1 ≡ false) (sym l)
              (differ-last_results s.results g.versions d a) in
          let (ds, e, clean) =
            judge-doubts (g.ending false) t doubts (search run ordered set_semantics gs t) (c ∙ n)
              same in
          let (rest, empty) = later t ds (c ∙ n) same (rw e at h) in
          let (no_doubts, ended, answer) = clean empty in
          (
            (
              all-AllCompatible g.versions a,
              ended,
              subst (Answered ordered set_semantics) l answer,
              subst (λ r. Evidence r gs) l rest,
            ),
            no_doubts,
          )

  settle-found :
      (p : Bool) (i : Instance) (gs : List Generation)
      → (settle run ordered set_semantics p gs
          (record { counterexample = some i; results = run i })).verdict
        ≡ eq
      → ⊥
  unfolding settle
  settle-found p i gs h = elim (Bool-cases (is_message (run i).0 || is_message (run i).1)) [
    | inl m ↦ cc (rw m at h)
    | inr m ↦ cc (rw m at h)
  ]

  -- The search before the empty database is checked.
  abbrev unchecked : Search
  unchecked = record { counterexample = none; results = (out_of_time, out_of_time) }

  from-eq :
      (p : Bool) (empty : Instance) (gs : List Generation)
      → KeepsDatabase run ordered set_semantics gs
      → (disprove_from run ordered set_semantics p empty gs).verdict ≡ eq
      → Compatible ordered set_semantics (run empty) × Evidence (run empty) gs
  unfolding disprove_from
  from-eq p empty gs k h =
      elim (Bool-cases (differ ordered set_semantics (run empty).0 (run empty).1)) [
        | inl d ↦ absurd (
            settle-found p empty gs (
              subst (λ o. (settle run ordered set_semantics p gs o.1).verdict ≡ eq)
                (check-true run ordered set_semantics empty unchecked d) h))
        | inr d ↦
            let g =
              subst (λ o. (settle run ordered set_semantics p gs o.1).verdict ≡ eq)
                (check-false run ordered set_semantics empty unchecked d) h in
            let e =
              settle-none run ordered set_semantics eq p (run empty) gs (λ q. cc) (λ q. cc) g in
            (
              differ-Compatible ordered set_semantics (run empty).0 (run empty).1 d,
              (search-eq gs (record { counterexample = none; results = run empty }) [] k refl d
                  (sym (ap (λ r. r.verdict) e) ∙ g)).0,
            )
      ]

-- When a generation that is stopped returns its database, a verdict EQ means this. On the empty
-- database and on every version that the generations accept, the two queries give rows that agree, or
-- both fail, or one runs out of time. Each generation returns a database before its time limit, and on
-- the last database checked by then both queries give rows, these agree, and there is at least one.
pub disprove-eq :
    (run : Instance → Result × Result) (set_semantics : Bool) (p : Parsing) (empty : Instance)
    (gs : List Generation)
    → KeepsDatabase run (both_ordered p) set_semantics gs
    → (disprove run set_semantics p empty gs).verdict ≡ eq
    → Compatible (both_ordered p) set_semantics (run empty)
      × Evidence run (both_ordered p) set_semantics (run empty) gs
unfolding disprove
disprove-eq run set_semantics unparsed empty gs k h =
    from-eq run false set_semantics false empty gs k h
disprove-eq run set_semantics (parsed n1 o1 n2 o2) empty gs k h =
    elim (Bool-cases (n1 == 1 && n2 == 1)) [
      | inl e ↦ from-eq run (o1 && o2) set_semantics true empty gs k (rw e at h)
      | inr e ↦ cc (rw e at h)
    ]
