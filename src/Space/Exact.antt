-- ===== src/Space/Exact.antt =====
-- `Space.narrow` of src/parseval/instance/domain.py keeps exactly the admitted values that meet the
-- requirement.
use par_seval.Common.{
  ℕ, ◌≡◌, refl, sym, ap, ◌∙◌, Bool, true, false, not, ◌&&◌, ◌||◌, Bool-cases, ◌⊎◌, inl, inr, arith,
  Option, none, some, List, [], ◌∷◌, ◌++◌, if◌then◌else◌,
}
use mathlib.Core.Path.{subst}
use par_seval.Space.{
  ValueKind, Requirement, test, null, not_null, equal, different, like, not_like, above, below,
  Space, is_exactly, any_same, any_alike, matches_all, matches_any, passes_lower, passes_upper,
  passes_equals, admits, raise_lower, drop_upper, narrowed, contradicts, narrow_value, narrow,
  with_null,
}

-- `==` is equality and `<` a strict order that compares all values of the kind.
pub record IsOrdered (k : ValueKind) : Type 0 where
  pub same_eq : (a b : k.Carrier) → k.same a b ≡ true → a ≡ b
  pub same_refl : (a : k.Carrier) → k.same a a ≡ true
  pub irreflexive : (a : k.Carrier) → k.before a a ≡ false
  pub transitive :
      (a b c : k.Carrier) → k.before a b ≡ true → k.before b c ≡ true → k.before a c ≡ true
  pub total : (a b : k.Carrier) → k.before a b || (k.same a b || k.before b a) ≡ true

module _ (k : ValueKind) (o : IsOrdered k) where
  -- A value that the input may take meets a requirement.
  unfoldable pub meets : Bool → Requirement k → Option k.Carrier → Bool
  meets ci (test t) x = true
  meets ci null none = true
  meets ci null (some x) = false
  meets ci r none = false
  meets ci not_null (some x) = true
  meets ci (equal v) (some x) = k.same x v
  meets ci (different v) (some x) = not (k.same x v) && not (ci && k.alike v x)
  meets ci (like v) (some x) = k.matches x v
  meets ci (not_like v) (some x) = not (k.matches x v)
  meets ci (above v strict) (some x) = not (k.before x v || (strict && k.same x v))
  meets ci (below v strict) (some x) = not (k.before v x || (strict && k.same x v))

  pub same_comm : (a b : k.Carrier) → k.same a b ≡ k.same b a
  same_comm a b = elim (Bool-cases (k.same a b)) [
    | inl e ↦ e ∙ sym (subst (λ c. k.same c a ≡ true) (o.same_eq a b e) (o.same_refl a))
    | inr e ↦ elim (Bool-cases (k.same b a)) [
      | inl f ↦ subst (λ c. k.same c b ≡ k.same b c) (o.same_eq b a f) refl
      | inr f ↦ e ∙ sym f
    ]
  ]

  -- A value is before whatever something at or after it is before.
  before_same : (x b v : k.Carrier) → k.before b v ≡ true → k.same x b ≡ true → k.before x v ≡ true
  before_same x b v h e = subst (λ c. k.before c v ≡ true) (sym (o.same_eq x b e)) h

  after_same : (x b v : k.Carrier) → k.before v b ≡ true → k.same x b ≡ true → k.before v x ≡ true
  after_same x b v h e = subst (λ c. k.before v c ≡ true) (sym (o.same_eq x b e)) h

  -- Of two tests, the first of which implies the second, both together are the first.
  implied : (p q : Bool) → (q ≡ true → p ≡ true) → not p ≡ not q && not p
  implied true q h = ground arith
  implied false true h = cc (h refl)
  implied false false h = refl

  implied_right : (p q : Bool) → (q ≡ true → p ≡ true) → not p ≡ not p && not q
  implied_right true q h = refl
  implied_right false true h = cc (h refl)
  implied_right false false h = refl

  or-cases : (a s c : Bool) → a || (s && c) ≡ true → (a ≡ true) ⊎ (c ≡ true)
  or-cases true s c h = inl refl
  or-cases false true c h = inr h
  or-cases false false c h = cc

  -- What comes before an earlier bound, or is it, comes before the later one.
  fails_lower :
      (x b v : k.Carrier) (was strict : Bool)
      → k.before b v ≡ true
      → k.before x b || (was && k.same x b) ≡ true
      → k.before x v || (strict && k.same x v) ≡ true
  fails_lower x b v was strict h f = elim (or-cases (k.before x b) was (k.same x b) f) [
    | inl e ↦ rw (o.transitive x b v e h) refl
    | inr e ↦ rw (before_same x b v h e) refl
  ]

  fails_upper :
      (x b v : k.Carrier) (was strict : Bool)
      → k.before v b ≡ true
      → k.before b x || (was && k.same x b) ≡ true
      → k.before v x || (strict && k.same x v) ≡ true
  fails_upper x b v was strict h f = elim (or-cases (k.before b x) was (k.same x b) f) [
    | inl e ↦ rw (o.transitive v b x h e) refl
    | inr e ↦ rw (after_same x b v h e) refl
  ]

  stricter :
      (a s was : Bool) → not (a || (true && s)) ≡ not (a || (was && s)) && not (a || (true && s))
  stricter a s was = ground arith

  laxer :
      (a s was : Bool) → not (a || (was && s)) ≡ not (a || (was && s)) && not (a || (false && s))
  laxer a s was = ground arith

  raised :
      (x : k.Carrier) (l : Option (k.Carrier × Bool)) (v : k.Carrier) (strict : Bool)
      → passes_lower k x (raise_lower k l v strict)
        ≡ passes_lower k x l && not (k.before x v || (strict && k.same x v))
  unfolding raise_lower passes_lower
  raised x none v strict = refl
  raised x (some (b, was)) v strict = elim (Bool-cases (k.before b v)) [
    | inl e ↦ rw e (
        implied (k.before x v || (strict && k.same x v)) (k.before x b || (was && k.same x b))
          (fails_lower x b v was strict e))
    | inr e ↦ elim (Bool-cases (k.same v b)) [
      | inl f ↦ tie strict f (o.same_eq v b f)
      | inr f ↦
          let g : k.before v b ≡ true = ground (arith, o.total b v, same_comm b v) in
          rw (e, f)
            (implied_right (k.before x b || (was && k.same x b))
              (k.before x v || (strict && k.same x v)) (fails_lower x v b strict was g))
    ]
  ]
    where
      tie :
          (strict : Bool)
          → k.same v b ≡ true
          → v ≡ b
          → passes_lower k x
              (if k.before b v || (k.same v b && strict) then some (v, strict) else some (b, was))
            ≡ not (k.before x b || (was && k.same x b))
              && not (k.before x v || (strict && k.same x v))
      tie true f q = rw (f, q, o.irreflexive b) (stricter (k.before x b) (k.same x b) was)
      tie false f q = rw (f, q, o.irreflexive b) (laxer (k.before x b) (k.same x b) was)

  dropped :
      (x : k.Carrier) (u : Option (k.Carrier × Bool)) (v : k.Carrier) (strict : Bool)
      → passes_upper k x (drop_upper k u v strict)
        ≡ passes_upper k x u && not (k.before v x || (strict && k.same x v))
  unfolding drop_upper passes_upper
  dropped x none v strict = refl
  dropped x (some (b, was)) v strict = elim (Bool-cases (k.before v b)) [
    | inl e ↦ rw e (
        implied (k.before v x || (strict && k.same x v)) (k.before b x || (was && k.same x b))
          (fails_upper x b v was strict e))
    | inr e ↦ elim (Bool-cases (k.same v b)) [
      | inl f ↦ tie strict f (o.same_eq v b f)
      | inr f ↦
          let g : k.before b v ≡ true = ground (arith, o.total b v, same_comm b v) in
          rw (e, f)
            (implied_right (k.before b x || (was && k.same x b))
              (k.before v x || (strict && k.same x v)) (fails_upper x v b strict was g))
    ]
  ]
    where
      tie :
          (strict : Bool)
          → k.same v b ≡ true
          → v ≡ b
          → passes_upper k x
              (if k.before v b || (k.same v b && strict) then some (v, strict) else some (b, was))
            ≡ not (k.before b x || (was && k.same x b))
              && not (k.before v x || (strict && k.same x v))
      tie true f q = rw (f, q, o.irreflexive b) (stricter (k.before b x) (k.same x b) was)
      tie false f q = rw (f, q, o.irreflexive b) (laxer (k.before b x) (k.same x b) was)

  matches_all-append :
      (x v : k.Carrier) (ps : List k.Carrier)
      → matches_all k x (ps ++ v ∷ []) ≡ matches_all k x ps && k.matches x v
  unfolding matches_all
  matches_all-append x v [] = ground arith
  matches_all-append x v (p ∷ ps) = rw (matches_all-append x v ps) (ground arith)

  matches_any-append :
      (x v : k.Carrier) (ps : List k.Carrier)
      → matches_any k x (ps ++ v ∷ []) ≡ matches_any k x ps || k.matches x v
  unfolding matches_any
  matches_any-append x v [] = ground arith
  matches_any-append x v (p ∷ ps) = rw (matches_any-append x v ps) (ground arith)

  equal_both :
      (x v : k.Carrier) (e : Option k.Carrier)
      → (elim e as (λ _. Bool) [ none ↦ false | some c ↦ not (k.same c v) ]) ≡ false
      → k.same x v ≡ passes_equals k x e && k.same x v
  unfolding passes_equals
  equal_both x v none h = refl
  equal_both x v (some c) h = let f : c ≡ v = o.same_eq c v (ground arith) in rw f (ground arith)

  -- The part of `admits` that a value other than NULL passes.
  pub narrowed-admits :
      (s : Space k) (r : Requirement k) (x : k.Carrier)
      → ((t : ℕ) → r ≡ test t → ⊥)
      → (r ≡ null → ⊥)
      → is_exactly true s.null ≡ false
      → contradicts k s r ≡ false
      → admits k (narrowed k s r) (some x)
        ≡ admits k s (some x) && meets s.case_insensitive r (some x)
  unfolding admits narrowed meets contradicts any_same any_alike
  narrowed-admits s (test t) x a b n c = absurd (a t refl)
  narrowed-admits s null x a b n c = absurd (b refl)
  narrowed-admits s not_null x a b n c = ground arith
  narrowed-admits s (equal v) x a b n c = rw (n, equal_both x v s.equals c) (ground arith)
  narrowed-admits s (different v) x a b n c = rw n (ground arith)
  narrowed-admits s (like v) x a b n c = rw (n, matches_all-append x v s.patterns) (ground arith)
  narrowed-admits s (not_like v) x a b n c =
      rw (n, matches_any-append x v s.rejected) (ground arith)
  narrowed-admits s (above v strict) x a b n c = rw (n, raised x s.lower v strict) (ground arith)
  narrowed-admits s (below v strict) x a b n c = rw (n, dropped x s.upper v strict) (ground arith)

  and-true : (b : Bool) → b ≡ b && true
  and-true true = refl
  and-true false = refl

  pub and-false : (b : Bool) → false ≡ b && false
  and-false true = refl
  and-false false = refl

  -- Narrowing by a requirement on values.
  value-exact :
      (s t : Space k) (r : Requirement k) (x : Option k.Carrier)
      → ((n : ℕ) → r ≡ test n → ⊥)
      → (r ≡ null → ⊥)
      → meets s.case_insensitive r none ≡ false
      → narrow_value k s r ≡ (true, t)
      → admits k t x ≡ admits k s x && meets s.case_insensitive r x
  unfolding narrow_value
  value-exact s t r x a b m h = elim (Bool-cases (is_exactly true s.null)) [
    | inl n ↦ cc (rw n at h)
    | inr n ↦ elim (Bool-cases (contradicts k s r)) [
      | inl c ↦ cc (rw (n, c) at h)
      | inr c ↦
          let e : narrowed k s r ≡ t = ap (λ q. q.1) (rw (n, c) at h) in
          subst (λ u. admits k u x ≡ admits k s x && meets s.case_insensitive r x) e (kept x n c)
    ]
  ]
    where
      kept :
          (x : Option k.Carrier)
          → is_exactly true s.null ≡ false
          → contradicts k s r ≡ false
          → admits k (narrowed k s r) x ≡ admits k s x && meets s.case_insensitive r x
      kept none n c = rw m (unfold admits narrowed is_exactly in and-false (admits k s none))
      kept (some y) n c = narrowed-admits s r y a b n c

  null-exact :
      (s t : Space k) (x : Option k.Carrier)
      → narrow k s null ≡ (true, t)
      → admits k t x ≡ admits k s x && meets s.case_insensitive null x
  unfolding narrow admits meets is_exactly
  null-exact s t x h = elim (Bool-cases (is_exactly false s.null || not s.nullable)) [
    | inl e ↦ cc (rw e at h)
    | inr e ↦
        subst (λ u. admits k u x ≡ admits k s x && meets s.case_insensitive null x)
          (ap (λ q. q.1) (rw e at h)) (kept x e)
  ]
    where
      kept :
          (x : Option k.Carrier)
          → is_exactly false s.null || not s.nullable ≡ false
          → admits k (with_null k s (some true) s.tests) x
            ≡ admits k s x && meets s.case_insensitive null x
      kept none e = ground arith
      kept (some y) e = and-false (admits k s (some y))

  -- When the kind is ordered and `narrow` says that values may remain, NULL or a value is admitted
  -- afterwards exactly when it was admitted before and meets the requirement; tests are met by every
  -- value, as they are checked when a value is picked.
  pub narrow-admits :
      (s t : Space k) (r : Requirement k) (x : Option k.Carrier)
      → narrow k s r ≡ (true, t)
      → admits k t x ≡ admits k s x && meets s.case_insensitive r x
  unfolding narrow meets
  narrow-admits s t (test n) x h =
      subst (λ u. admits k u x ≡ admits k s x && true) (ap (λ q. q.1) h)
        (unfold admits in untested x)
    where
      untested : (x : Option k.Carrier) → admits k s x ≡ admits k s x && true
      untested x = and-true (admits k s x)
  narrow-admits s t null x h = null-exact s t x h
  narrow-admits s t not_null x h = value-exact s t not_null x (λ n q. cc) (λ q. cc) refl h
  narrow-admits s t (equal v) x h = value-exact s t (equal v) x (λ n q. cc) (λ q. cc) refl h
  narrow-admits s t (different v) x h = value-exact s t (different v) x (λ n q. cc) (λ q. cc) refl h
  narrow-admits s t (like v) x h = value-exact s t (like v) x (λ n q. cc) (λ q. cc) refl h
  narrow-admits s t (not_like v) x h = value-exact s t (not_like v) x (λ n q. cc) (λ q. cc) refl h
  narrow-admits s t (above v strict) x h =
      value-exact s t (above v strict) x (λ n q. cc) (λ q. cc) refl h
  narrow-admits s t (below v strict) x h =
      value-exact s t (below v strict) x (λ n q. cc) (λ q. cc) refl h
