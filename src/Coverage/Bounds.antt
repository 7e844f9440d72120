-- ===== src/Coverage/Bounds.antt =====
-- What `observe` of src/parseval/generator/coverage.py keeps of a coverage.
use par_seval.Common.{
  ℕ, suc, ◌≡◌, refl, sym, ap, ◌∙◌, Bool, true, false, not, ◌&&◌, ◌||◌, Bool-cases, inl, inr, arith,
  List, [], ◌∷◌, ◌++◌, ◌==◌, leb, ltb,
}
use mathlib.Core.Path.{subst}
use par_seval.Coverage.{
  Target, same_target, insert, assign, Coverage, initial, count, is_kept, Recorder, is_every, wants,
  store_of, keep, record_condition, mark_reached, mark_covered, observe,
}

count-append : (ws : List ℕ) (w : ℕ) → count (ws ++ w ∷ []) ≡ suc (count ws)
unfolding count
count-append [] w = refl
count-append (x ∷ ws) w = ap suc (count-append ws w)

-- Every target but the one kept whole has at most `limit` conditions of each sort, covered and
-- stable targets are reached, and stable targets have no witnesses.
pub record IsBounded (r : Recorder) (c : Coverage) : Type 0 where
  pub few_witnesses :
      (u : Target) → is_every r u ≡ false → leb (count (c.witnesses u)) r.limit ≡ true
  pub few_candidates :
      (u : Target) → is_every r u ≡ false → leb (count (c.candidates u)) r.limit ≡ true
  pub covered_reached : (u : Target) → c.covered u ≡ true → c.reached u ≡ true
  pub stable_reached : (u : Target) → c.stable u ≡ true → c.reached u ≡ true
  pub stable_clear : (u : Target) → c.stable u ≡ true → c.witnesses u ≡ []

same_target-eq : (a b : Target) → same_target a b ≡ true → a ≡ b
unfolding same_target
same_target-eq a b h =
    let e : a.site ≡ b.site = ground arith in
    let f : a.outcome ≡ b.outcome = ground arith in cc (e, f)

pub initial-IsBounded : (r : Recorder) → IsBounded r initial
unfolding count
initial-IsBounded r = record {
  few_witnesses = λ u h. ground arith;
  few_candidates = λ u h. ground arith;
  covered_reached = λ u h. cc;
  stable_reached = λ u h. cc;
  stable_clear = λ u h. refl;
}

module _ (r : Recorder) where
  mark_reached-IsBounded :
      (c : Coverage) (t : Target) → IsBounded r c → IsBounded r (mark_reached r c t)
  unfolding mark_reached insert
  mark_reached-IsBounded c t b = record {
    few_witnesses = b.few_witnesses;
    few_candidates = b.few_candidates;
    covered_reached = λ u h. ground (arith, b.covered_reached u);
    stable_reached = λ u h. ground (arith, b.stable_reached u);
    stable_clear = b.stable_clear;
  }

  mark_covered-IsBounded :
      (c : Coverage) (v : Bool) (t : Target)
      → c.reached t ≡ true
      → IsBounded r c
      → IsBounded r (mark_covered r c v t)
  unfolding mark_covered insert
  mark_covered-IsBounded c v t e b = record {
    few_witnesses = b.few_witnesses;
    few_candidates = b.few_candidates;
    covered_reached = λ u h. elim (Bool-cases (same_target u t)) [
      | inl s ↦ subst (λ x. c.reached x ≡ true) (sym (same_target-eq u t s)) e
      | inr s ↦ ground (arith, b.covered_reached u)
    ];
    stable_reached = b.stable_reached;
    stable_clear = b.stable_clear;
  }

  keep-IsBounded :
      (c : Coverage) (v : Bool) (t : Target) (w : ℕ)
      → c.stable t ≡ false
      → (is_every r t ≡ false → ltb (count (store_of r c v t)) r.limit ≡ true)
      → IsBounded r c
      → IsBounded r (keep r c v t w)
  unfolding keep assign store_of
  keep-IsBounded c true t w n room b = record {
    few_witnesses = λ u h. elim (Bool-cases (same_target u t)) [
      | inl s ↦
          rw (s, count-append (c.witnesses t) w)
            (let g = room (subst (λ x. is_every r x ≡ false) (same_target-eq u t s) h) in
              ground arith)
      | inr s ↦ rw s (b.few_witnesses u h)
    ];
    few_candidates = b.few_candidates;
    covered_reached = b.covered_reached;
    stable_reached = b.stable_reached;
    stable_clear = λ u h. elim (Bool-cases (same_target u t)) [
      | inl s ↦ cc (subst (λ x. c.stable x ≡ true) (same_target-eq u t s) h)
      | inr s ↦ rw s (b.stable_clear u h)
    ];
  }
  keep-IsBounded c false t w n room b = record {
    few_witnesses = b.few_witnesses;
    few_candidates = λ u h. elim (Bool-cases (same_target u t)) [
      | inl s ↦
          rw (s, count-append (c.candidates t) w)
            (let g = room (subst (λ x. is_every r x ≡ false) (same_target-eq u t s) h) in
              ground arith)
      | inr s ↦ rw s (b.few_candidates u h)
    ];
    covered_reached = b.covered_reached;
    stable_reached = b.stable_reached;
    stable_clear = b.stable_clear;
  }

  stable-IsBounded :
      (c : Coverage) (t : Target)
      → c.reached t ≡ true
      → IsBounded r c
      → IsBounded r (record {
        reached = c.reached;
        covered = c.covered;
        stable = insert t c.stable;
        witnesses = assign t [] c.witnesses;
        candidates = c.candidates;
      })
  unfolding insert assign count
  stable-IsBounded c t e b = record {
    few_witnesses = λ u h. elim (Bool-cases (same_target u t)) [
      | inl s ↦ rw s (ground arith)
      | inr s ↦ rw s (b.few_witnesses u h)
    ];
    few_candidates = b.few_candidates;
    covered_reached = b.covered_reached;
    stable_reached = λ u h. elim (Bool-cases (same_target u t)) [
      | inl s ↦ subst (λ x. c.reached x ≡ true) (sym (same_target-eq u t s)) e
      | inr s ↦ b.stable_reached u (rw s at h)
    ];
    stable_clear = λ u h. elim (Bool-cases (same_target u t)) [
      | inl s ↦ rw s refl
      | inr s ↦ rw s (b.stable_clear u (rw s at h))
    ];
  }

  record_condition-IsBounded :
      (c : Coverage) (v : Bool) (t : Target) (w : ℕ)
      → c.reached t ≡ true
      → c.stable t ≡ false
      → (is_every r t ≡ false → ltb (count (store_of r c v t)) r.limit ≡ true)
      → IsBounded r c
      → IsBounded r (record_condition r c v t w)
  unfolding record_condition
  record_condition-IsBounded c v t w e n room b = elim (Bool-cases (w == r.true_term)) [
    | inl y ↦ rw y (stable-IsBounded c t e b)
    | inr y ↦ elim (Bool-cases (r.is_constant w || is_kept w (store_of r c v t))) [
      | inl z ↦ rw (y, z) b
      | inr z ↦ rw (y, z) (keep-IsBounded c v t w n room b)
    ]
  ]

  reached-mark :
      (c : Coverage) (v : Bool) (t : Target)
      → (mark_covered r (mark_reached r c t) v t).reached t ≡ true
  unfolding mark_reached mark_covered insert same_target
  reached-mark c v t = ground arith

  stable-mark :
      (c : Coverage) (v : Bool) (t : Target)
      → (mark_covered r (mark_reached r c t) v t).stable t ≡ c.stable t
  unfolding mark_reached mark_covered
  stable-mark c v t = refl

  store-mark :
      (c : Coverage) (v : Bool) (t : Target)
      → store_of r (mark_covered r (mark_reached r c t) v t) v t ≡ store_of r c v t
  unfolding mark_reached mark_covered store_of
  store-mark c v t = refl

  marked-IsBounded :
      (c : Coverage) (v : Bool) (t : Target)
      → IsBounded r c
      → IsBounded r (mark_covered r (mark_reached r c t) v t)
  marked-IsBounded c v t b =
      mark_covered-IsBounded (mark_reached r c t) v t
        (unfold mark_reached insert same_target in ground arith) (mark_reached-IsBounded c t b)

  -- Whatever an execution observes, with any flag and any condition, the bounds on the kept
  -- conditions and the relations between the sets of outcomes stay true.
  pub observe-IsBounded :
      (c : Coverage) (t : Target) (v : Bool) (w : ℕ)
      → IsBounded r c
      → IsBounded r (observe r c t v w)
  unfolding observe
  observe-IsBounded c t v w b = elim (Bool-cases (c.stable t)) [
    | inl e ↦ rw e (mark_reached-IsBounded c t b)
    | inr e ↦ elim (Bool-cases (not (is_every r t) && leb r.limit (count (store_of r c v t)))) [
      | inl f ↦ rw (e, f) (marked-IsBounded c v t b)
      | inr f ↦
          rw (e, f)
            (record_condition-IsBounded (mark_covered r (mark_reached r c t) v t) v t w
              (reached-mark c v t) (stable-mark c v t ∙ e)
              (λ h.
                ap (λ s. ltb (count s) r.limit) (store-mark c v t)
                ∙ room (is_every r t) (count (store_of r c v t)) r.limit f h)
              (marked-IsBounded c v t b))
    ]
  ]
    where
      room : (e : Bool) (n l : ℕ) → not e && leb l n ≡ false → e ≡ false → ltb n l ≡ true
      room e n l f h = ground arith

  -- When `wants` asks for a condition of an outcome that is not stable, observing the outcome with a
  -- condition that is neither constant nor kept yet keeps the condition as its last candidate.
  pub wants-observe :
      (c : Coverage) (t : Target) (w : ℕ)
      → wants r c t false ≡ true
      → c.stable t ≡ false
      → (w == r.true_term) ≡ false
      → r.is_constant w ≡ false
      → is_kept w (c.candidates t) ≡ false
      → (observe r c t false w).candidates t ≡ c.candidates t ++ w ∷ []
  unfolding observe record_condition keep assign wants store_of mark_reached mark_covered
      same_target
  wants-observe c t w h s n k m = rw (s, full, n, k, m) (rw same refl)
    where
      full : not (is_every r t) && leb r.limit (count (c.candidates t)) ≡ false
      full = ground arith

      same : (t.site == t.site && t.outcome == t.outcome) ≡ true
      same = ground arith
