-- ===== src/Smt/Search/Domain/Sound.antt =====
-- The spaces over SQL values of src/parseval/smt/csp.py keep every value that an atom allows.
use par_seval.Common.{
  ℕ, ◌≡◌, refl, sym, ap, ◌∙◌, Bool, true, false, not, ◌&&◌, ◌||◌, Bool-cases, inl, inr, arith,
  Option, none, some, if◌then◌else◌,
}
use mathlib.Core.Path.{subst}
use par_seval.Scalar.Outcome.{Outcome, returned}
use par_seval.Scalar.Term.{Value, bool, int, text, Predicate}
use par_seval.Scalar.Evaluate.{Assignment, same_value, less, is_none}
use par_seval.Scalar.Comparisons.{same_value_iff, same_value_comm}
use par_seval.Space.{
  Requirement, test, null, equal, different, like, not_like, above, below, Space, is_exactly,
  admits, passes_equals, narrowed, contradicts, narrow_value, narrow,
}
use par_seval.Space.{not_null as not_null_requirement}
use par_seval.Space.Exact.{meets, narrow-admits}
use par_seval.Space.Spent.{narrow-spent}
use par_seval.Smt.Formula.{
  Test, eq, ne, lt, le, gt, ge, is_null, not_null, matches, not_matches, eq_var, ne_var, passes,
  some_passes, value_passes, atom_holds, is_returned_true, is_returned_false,
}
use par_seval.Smt.Valuation.{Valuation}
use par_seval.Smt.Search.Sound.{IsSound}
use par_seval.Scalar.Order.{value_before}
use par_seval.Smt.Search.Domain.{sql_values, fresh_space, narrow_space, value_spaces}
use par_seval.Smt.Search.Domain.Order.{sql_values-IsOrdered}

less-before : (a b : Value) → less a b ≡ returned true → value_before a b ≡ true
unfolding less value_before
less-before (int a) (int b) h = cc
less-before (text a) (text b) h = cc
less-before (bool a) (bool b) h = cc
less-before a b h = cc

less-not_before : (a b : Value) → less a b ≡ returned false → value_before a b ≡ false
unfolding less value_before
less-not_before (int a) (int b) h = cc
less-not_before (text a) (text b) h = cc
less-not_before (bool a) (bool b) h = cc
less-not_before a b h = cc

module _ (v : Valuation) (cased : v.runtime.case_insensitive ≡ false) where
  abbrev SqlSpace : Type 0
  SqlSpace = Space (sql_values v.runtime)

  -- A space that a value fits. One value is only ever fixed beside NULL being ruled out.
  pub record Fits (s : SqlSpace) (x : Option Value) : Type 0 where
    pub admitted : admits (sql_values v.runtime) s x ≡ true
    pub with_case : s.case_insensitive ≡ false
    pub fixed : (c : Value) → s.equals ≡ some c → s.null ≡ some false

  abbrev IsFixed : SqlSpace → Type 0
  IsFixed s = (c : Value) → s.equals ≡ some c → s.null ≡ some false

  -- What narrowing keeps in all its branches.
  abbrev Keeps : SqlSpace → Bool × SqlSpace → Type 0
  Keeps s q = (q.1.case_insensitive ≡ s.case_insensitive) × IsFixed q.1

  either-Keeps :
      (s : SqlSpace) (b : Bool) (p q : Bool × SqlSpace)
      → Keeps s p
      → (b ≡ false → Keeps s q)
      → Keeps s (if b then p else q)
  either-Keeps s true p q f g = f
  either-Keeps s false p q f g = g refl

  value-Keeps :
      (s : SqlSpace) (r : Requirement (sql_values v.runtime))
      → IsFixed s
      → Keeps s (narrow_value (sql_values v.runtime) s r)
  unfolding narrow_value narrowed
  value-Keeps s r h =
      either-Keeps s (is_exactly true s.null) _ _ (refl, h)
        (λ _.
          either-Keeps s (contradicts (sql_values v.runtime) s r) _ _ (refl, λ c e. refl)
            (λ _. (refl, λ c e. refl)))

  null-IsFixed :
      (s : SqlSpace)
      → IsFixed s
      → is_exactly false s.null || not s.nullable ≡ false
      → (c : Value) → s.equals ≡ some c
      → some true ≡ some false
  unfolding is_exactly
  null-IsFixed s h n c e = cc (rw (h c e) at n)

  narrow-Keeps :
      (s : SqlSpace) (r : Requirement (sql_values v.runtime))
      → IsFixed s
      → Keeps s (narrow (sql_values v.runtime) s r)
  unfolding narrow
  narrow-Keeps s (test n) h = (refl, h)
  narrow-Keeps s null h =
      either-Keeps s (is_exactly false s.null || not s.nullable) _ _ (refl, h)
        (λ n. (refl, null-IsFixed s h n))
  narrow-Keeps s not_null_requirement h = value-Keeps s not_null_requirement h
  narrow-Keeps s (equal c) h = value-Keeps s (equal c) h
  narrow-Keeps s (different c) h = value-Keeps s (different c) h
  narrow-Keeps s (like c) h = value-Keeps s (like c) h
  narrow-Keeps s (not_like c) h = value-Keeps s (not_like c) h
  narrow-Keeps s (above c b) h = value-Keeps s (above c b) h
  narrow-Keeps s (below c b) h = value-Keeps s (below c b) h

  -- A value that meets a requirement is not lost.
  narrow-Fits :
      (s : SqlSpace) (r : Requirement (sql_values v.runtime)) (x : Option Value)
      → Fits s x
      → meets (sql_values v.runtime) (sql_values-IsOrdered v.runtime) false r x ≡ true
      → ((narrow (sql_values v.runtime) s r).0 ≡ true)
        × Fits (narrow (sql_values v.runtime) s r).1 x
  narrow-Fits s r x h m = go (narrow (sql_values v.runtime) s r) refl (narrow-Keeps s r h.fixed)
    where
      go :
          (q : Bool × SqlSpace)
          → narrow (sql_values v.runtime) s r ≡ q
          → Keeps s q
          → (q.0 ≡ true) × Fits q.1 x
      go (true, t) e g = (
        refl,
        record {
          admitted =
              narrow-admits (sql_values v.runtime) (sql_values-IsOrdered v.runtime) s t r x e
              ∙ rw (h.admitted, h.with_case) m;
          with_case = g.0 ∙ h.with_case;
          fixed = g.1;
        },
      )
      go (false, t) e g =
          let n = narrow-spent (sql_values v.runtime) (sql_values-IsOrdered v.runtime) s t r x e in
          cc (rw (h.admitted, h.with_case, m) at n)

  -- What `admits` says of the fields `null` and `equals`.
  not_null-admits :
      (s : SqlSpace) → s.null ≡ some false → admits (sql_values v.runtime) s none ≡ false
  unfolding admits is_exactly
  not_null-admits s e = rw e refl

  null-admits :
      (s : SqlSpace) (c : Value)
      → s.null ≡ some true
      → admits (sql_values v.runtime) s (some c) ≡ false
  unfolding admits is_exactly
  null-admits s c e = rw e refl

  and-third : (a b c d : Bool) → a && (b && (c && d)) ≡ true → c ≡ true
  and-third a b c d h = ground arith

  equals-admits :
      (s : SqlSpace) (c d : Value)
      → s.equals ≡ some c
      → admits (sql_values v.runtime) s (some d) ≡ true
      → same_value d c ≡ true
  unfolding admits passes_equals
  equals-admits s c d e h = and-third _ _ _ _ (rw e at h)

  null-Fits :
      (s : SqlSpace) (x : Option Value) (b : Bool) → Fits s x → s.null ≡ some b → is_none x ≡ b
  unfolding is_none
  null-Fits s none true h e = refl
  null-Fits s (some c) false h e = refl
  null-Fits s none false h e = cc (not_null-admits s e, h.admitted)
  null-Fits s (some c) true h e = cc (null-admits s c e, h.admitted)

  equals-Fits :
      (s : SqlSpace) (x : Option Value) (c : Value) → Fits s x → s.equals ≡ some c → x ≡ some c
  equals-Fits s none c h e = cc (not_null-admits s (h.fixed c e), h.admitted)
  equals-Fits s (some d) c h e = ap some ((same_value_iff d c).0 (equals-admits s c d e h.admitted))

  returned-true : (o : Outcome Bool) → is_returned_true o ≡ true → o ≡ returned true
  returned-true o h = ground arith

  returned-false : (o : Outcome Bool) → is_returned_false o ≡ true → o ≡ returned false
  returned-false o h = ground arith

  less-true : (a b : Value) → is_returned_true (less a b) ≡ true → value_before a b ≡ true
  less-true a b h = less-before a b (returned-true (less a b) h)

  less-false : (a b : Value) → is_returned_false (less a b) ≡ true → value_before a b ≡ false
  less-false a b h = less-not_before a b (returned-false (less a b) h)

  not_self : (a b : Value) → value_before a b ≡ true → a ≡ b → ⊥
  not_self a b h e = cc (
    subst (λ c. value_before a c ≡ true) (sym e) h,
    (sql_values-IsOrdered v.runtime).irreflexive a,
  )

  not_both : (a b : Value) → value_before a b ≡ true → value_before b a ≡ true → ⊥
  not_both a b h e = not_self a a ((sql_values-IsOrdered v.runtime).transitive a b a h e) refl

  -- Of two values one of which is before the other, the other is not, nor are they the same.
  asymmetric :
      (a b : Value)
      → value_before a b ≡ true
      → not (value_before b a || (true && same_value a b)) ≡ true
  asymmetric a b h = elim (Bool-cases (value_before b a)) [
    | inl e ↦ absurd (not_both a b h e)
    | inr e ↦ elim (Bool-cases (same_value a b)) [
      | inl f ↦ absurd (not_self a b h ((same_value_iff a b).0 f))
      | inr f ↦ rw (e, f) refl
    ]
  ]

  asymmetric_flip :
      (a b : Value)
      → value_before a b ≡ true
      → not (value_before b a || (true && same_value b a)) ≡ true
  asymmetric_flip a b h = rw (same_value_comm b a) (asymmetric a b h)

  -- The requirement of an atom, where it has one.
  abbrev Asks : Requirement (sql_values v.runtime) → Option Value → Type 0
  Asks r x = meets (sql_values v.runtime) (sql_values-IsOrdered v.runtime) false r x ≡ true

  below-Asks : (x : Option Value) (c : Value) → some_passes (lt c) x ≡ true → Asks (below c true) x
  unfolding meets value_passes
  below-Asks none c h = cc
  below-Asks (some d) c h = asymmetric d c (less-true d c h)

  above-Asks : (x : Option Value) (c : Value) → some_passes (gt c) x ≡ true → Asks (above c true) x
  unfolding meets value_passes
  above-Asks none c h = cc
  above-Asks (some d) c h = asymmetric_flip c d (less-true c d h)

  at_most-Asks :
      (x : Option Value) (c : Value) → some_passes (le c) x ≡ true → Asks (below c false) x
  unfolding meets value_passes
  at_most-Asks none c h = cc
  at_most-Asks (some d) c h = rw (less-false c d h) refl

  at_least-Asks :
      (x : Option Value) (c : Value) → some_passes (ge c) x ≡ true → Asks (above c false) x
  unfolding meets value_passes
  at_least-Asks none c h = cc
  at_least-Asks (some d) c h = rw (less-false d c h) refl

  plain-Asks :
      (r : Requirement (sql_values v.runtime)) (t : Test) (x : Option Value)
      → ((d : Value) → value_passes t d ≡ true → Asks r (some d))
      → some_passes t x ≡ true
      → Asks r x
  plain-Asks r t none f h = cc
  plain-Asks r t (some d) f h = f d h

  null-Asks : (x : Option Value) → is_none x ≡ true → Asks null x
  unfolding meets is_none
  null-Asks none h = refl
  null-Asks (some d) h = cc

  not_null-Asks : (x : Option Value) → not (is_none x) ≡ true → Asks not_null_requirement x
  unfolding meets is_none
  not_null-Asks none h = cc
  not_null-Asks (some d) h = refl

  module _ (nullable : ℕ → Bool) (id_of : Predicate → ℕ) (env : Assignment) where
    atom-Fits :
        (x : ℕ) (t : Test) (s : SqlSpace)
        → Fits s (env x)
        → atom_holds v.runtime env x t ≡ true
        → ((narrow_space v nullable id_of t s).0 ≡ true)
          × Fits (narrow_space v nullable id_of t s).1 (env x)
    unfolding narrow_space atom_holds meets value_passes
    atom-Fits x is_null s h a = narrow-Fits s null (env x) h (null-Asks (env x) a)
    atom-Fits x not_null s h a =
        narrow-Fits s not_null_requirement (env x) h (not_null-Asks (env x) a)
    atom-Fits x (eq c) s h a =
        narrow-Fits s (equal c) (env x) h (plain-Asks (equal c) (eq c) (env x) (λ d e. e) a)
    atom-Fits x (ne c) s h a =
        narrow-Fits s (different c) (env x) h
          (plain-Asks (different c) (ne c) (env x) (λ d e. rw e refl) a)
    atom-Fits x (lt c) s h a = narrow-Fits s (below c true) (env x) h (below-Asks (env x) c a)
    atom-Fits x (gt c) s h a = narrow-Fits s (above c true) (env x) h (above-Asks (env x) c a)
    atom-Fits x (le c) s h a = narrow-Fits s (below c false) (env x) h (at_most-Asks (env x) c a)
    atom-Fits x (ge c) s h a = narrow-Fits s (above c false) (env x) h (at_least-Asks (env x) c a)
    atom-Fits x (matches p) s h a =
        narrow-Fits s (like p) (env x) h (plain-Asks (like p) (matches p) (env x) (λ d e. e) a)
    atom-Fits x (not_matches p) s h a =
        narrow-Fits s (not_like p) (env x) h
          (plain-Asks (not_like p) (not_matches p) (env x) (λ d e. e) a)
    atom-Fits x (passes p) s h a = narrow-Fits s (test (id_of p)) (env x) h refl
    atom-Fits x (eq_var y) s h a = (refl, h)
    atom-Fits x (ne_var y) s h a = (refl, h)

    fresh-equals : (x : ℕ) (c : Value) → (fresh_space v nullable id_of x).equals ≡ some c → ⊥
    unfolding fresh_space
    fresh-equals x c e = cc

    fresh-Fits :
        (x : ℕ)
        → admits (sql_values v.runtime) (fresh_space v nullable id_of x) (env x) ≡ true
        → Fits (fresh_space v nullable id_of x) (env x)
    fresh-Fits x h = record {
      admitted = h;
      with_case = unfold fresh_space in cased;
      fixed = λ c e. absurd (fresh-equals x c e);
    }

    -- The spaces keep their promise of every assignment that fits the new spaces.
    pub value_spaces-IsSound :
        ((x : ℕ) → admits (sql_values v.runtime) (fresh_space v nullable id_of x) (env x) ≡ true)
        → IsSound (value_spaces v nullable id_of) v.runtime env
    value_spaces-IsSound columns = record {
      Fits = Fits;
      fresh_fits = λ x. fresh-Fits x (columns x);
      narrow_fits = λ x t c h a. atom-Fits x t c h a;
      null_fits = null-Fits;
      equals_fits = equals-Fits;
    }
