-- ===== src/Space/Spent.antt =====
-- When `Space.narrow` of src/parseval/instance/domain.py reports that no value remains.
use par_seval.Common.{
  ℕ, ◌≡◌, refl, sym, ap, ◌∙◌, Bool, true, false, not, ◌&&◌, ◌||◌, Bool-cases, ◌⊎◌, inl, inr, arith,
  Option, none, some,
}
use mathlib.Core.Path.{subst}
use par_seval.Space.{
  ValueKind, Requirement, test, null, not_null, equal, different, like, not_like, above, below,
  Space, is_exactly, passes_lower, passes_upper, passes_equals, admits, narrowed, remains,
  contradicts, narrow_value, bounds_meet, narrow,
}
use par_seval.Space.Exact.{IsOrdered, meets, same_comm, narrowed-admits, and-false}

module _ (k : ValueKind) (o : IsOrdered k) where
  -- A value that passes a lower bound is beyond it, or is it when it is not strict.
  at_least :
      (x l : k.Carrier) (a : Bool)
      → k.before x l || (a && k.same x l) ≡ false
      → (k.before l x ≡ true) ⊎ ((l ≡ x) × (a ≡ false))
  at_least x l a h = elim (Bool-cases (k.before l x)) [
    | inl e ↦ inl e
    | inr e ↦
        let f : k.same l x ≡ true = ground (arith, o.total l x) in
        inr (o.same_eq l x f, ground (arith, same_comm k o x l))
  ]

  at_most :
      (x u : k.Carrier) (b : Bool)
      → k.before u x || (b && k.same x u) ≡ false
      → (k.before x u ≡ true) ⊎ ((x ≡ u) × (b ≡ false))
  at_most x u b h = elim (Bool-cases (k.before x u)) [
    | inl e ↦ inl e
    | inr e ↦
        let f : k.same x u ≡ true = ground (arith, o.total x u) in
        inr (o.same_eq x u f, ground arith)
  ]

  between :
      (x l u : k.Carrier) (a b : Bool)
      → (k.before l x ≡ true) ⊎ ((l ≡ x) × (a ≡ false))
      → (k.before x u ≡ true) ⊎ ((x ≡ u) × (b ≡ false))
      → k.before l u || (k.same l u && not (a || b)) ≡ true
  between x l u a b (inl p) (inl q) = rw (o.transitive l x u p q) refl
  between x l u a b (inl p) (inr (q, c)) = rw (subst (λ y. k.before l y ≡ true) q p) refl
  between x l u a b (inr (p, c)) (inl q) = rw (subst (λ y. k.before y u ≡ true) (sym p) q) refl
  between x l u a b (inr (p, c)) (inr (q, d)) =
      rw (subst (λ y. k.same l y ≡ true) (p ∙ q) (o.same_refl l), c, d) (ground arith)

  -- No value passes two bounds that do not meet.
  unmet_bounds :
      (x : k.Carrier) (l u : Option (k.Carrier × Bool))
      → bounds_meet k l u ≡ false
      → passes_lower k x l && passes_upper k x u ≡ false
  unfolding bounds_meet passes_lower passes_upper
  unmet_bounds x none u h = cc
  unmet_bounds x (some (l, a)) none h = cc
  unmet_bounds x (some (l, a)) (some (u, b)) h =
      elim (Bool-cases (k.before x l || (a && k.same x l))) [
        | inl e ↦ rw e refl
        | inr e ↦ elim (Bool-cases (k.before u x || (b && k.same x u))) [
          | inl f ↦ rw (e, f) refl
          | inr f ↦ cc (between x l u a b (at_least x l a e) (at_most x u b f), h)
        ]
      ]

  remains-equals :
      (s : Space k) (e : Option k.Carrier)
      → s.equals ≡ e
      → remains k s ≡ (elim e as (λ _. Bool) [
        | some c ↦ admits k s (some c)
        | none ↦ bounds_meet k s.lower s.upper
      ])
  unfolding remains
  remains-equals s e q =
      ap
        (λ e. elim e as (λ _. Bool) [
          | some c ↦ admits k s (some c)
          | none ↦ bounds_meet k s.lower s.upper
        ])
        q

  -- A space in which no value remains admits none but NULL.
  spent :
      (s : Space k) (e : Option k.Carrier) (x : k.Carrier)
      → s.equals ≡ e
      → remains k s ≡ false
      → admits k s (some x) ≡ false
  spent s none x q h =
      let g : bounds_meet k s.lower s.upper ≡ false = sym (remains-equals s none q) ∙ h in
      unfold admits in ground (arith, unmet_bounds x s.lower s.upper g)
  spent s (some c) x q h = elim (Bool-cases (k.same x c)) [
    | inl f ↦
        subst (λ y. admits k s (some y) ≡ false) (sym (o.same_eq x c f))
          (sym (remains-equals s (some c) q) ∙ h)
    | inr f ↦ unfold admits passes_equals in rw (q, f) (ground arith)
  ]

  apart :
      (y v : k.Carrier) (e : Option k.Carrier)
      → (elim e as (λ _. Bool) [ none ↦ false | some c ↦ not (k.same c v) ]) ≡ true
      → passes_equals k y e && k.same y v ≡ false
  unfolding passes_equals
  apart y v none g = cc
  apart y v (some c) g = elim (Bool-cases (k.same y c)) [
    | inr e ↦ rw e refl
    | inl e ↦ elim (Bool-cases (k.same y v)) [
      | inr f ↦ rw (e, f) refl
      | inl f ↦ cc (subst (λ z. k.same z v ≡ true) (o.same_eq y c e) f, g)
    ]
  ]

  contradicted :
      (s : Space k) (r : Requirement k) (y : k.Carrier)
      → contradicts k s r ≡ true
      → admits k s (some y) && meets k o s.case_insensitive r (some y) ≡ false
  unfolding contradicts admits meets
  contradicted s (equal v) y g = ground (arith, apart y v s.equals g)
  contradicted s r y g = cc

  -- Narrowing by a requirement on values that reports that none remains.
  value-spent :
      (s t : Space k) (r : Requirement k) (x : Option k.Carrier)
      → ((n : ℕ) → r ≡ test n → ⊥)
      → (r ≡ null → ⊥)
      → meets k o s.case_insensitive r none ≡ false
      → narrow_value k s r ≡ (false, t)
      → admits k s x && meets k o s.case_insensitive r x ≡ false
  unfolding narrow_value
  value-spent s t r none a b m h = rw m (sym (and-false k o (admits k s none)))
  value-spent s t r (some y) a b m h = elim (Bool-cases (is_exactly true s.null)) [
    | inl n ↦ unfold admits in rw n refl
    | inr n ↦ elim (Bool-cases (contradicts k s r)) [
      | inl c ↦ contradicted s r y c
      | inr c ↦
          sym (narrowed-admits k o s r y a b n c)
          ∙ spent (narrowed k s r) (narrowed k s r).equals y refl (ap (λ q. q.0) (rw (n, c) at h))
    ]
  ]

  null-spent :
      (s t : Space k) (x : Option k.Carrier)
      → narrow k s null ≡ (false, t)
      → admits k s x && meets k o s.case_insensitive null x ≡ false
  unfolding narrow admits meets
  null-spent s t (some y) h = sym (and-false k o (admits k s (some y)))
  null-spent s t none h = elim (Bool-cases (is_exactly false s.null || not s.nullable)) [
    | inl e ↦ ground arith
    | inr e ↦ cc (rw e at h)
  ]

  -- When the kind is ordered and `narrow` says that no value remains, neither NULL nor any value that
  -- was admitted meets the requirement.
  pub narrow-spent :
      (s t : Space k) (r : Requirement k) (x : Option k.Carrier)
      → narrow k s r ≡ (false, t)
      → admits k s x && meets k o s.case_insensitive r x ≡ false
  unfolding narrow meets
  narrow-spent s t (test n) x h = cc
  narrow-spent s t null x h = null-spent s t x h
  narrow-spent s t not_null x h = value-spent s t not_null x (λ n q. cc) (λ q. cc) refl h
  narrow-spent s t (equal v) x h = value-spent s t (equal v) x (λ n q. cc) (λ q. cc) refl h
  narrow-spent s t (different v) x h = value-spent s t (different v) x (λ n q. cc) (λ q. cc) refl h
  narrow-spent s t (like v) x h = value-spent s t (like v) x (λ n q. cc) (λ q. cc) refl h
  narrow-spent s t (not_like v) x h = value-spent s t (not_like v) x (λ n q. cc) (λ q. cc) refl h
  narrow-spent s t (above v strict) x h =
      value-spent s t (above v strict) x (λ n q. cc) (λ q. cc) refl h
  narrow-spent s t (below v strict) x h =
      value-spent s t (below v strict) x (λ n q. cc) (λ q. cc) refl h
