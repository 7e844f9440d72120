-- ===== src/Smt/Search/Sound.antt =====
-- `narrow` and `propagate` of src/parseval/smt/csp.py keep every assignment that satisfies the state.
use par_seval.Common.{
  ℕ, ◌≡◌, refl, sym, ap, Bool, true, false, not, ◌&&◌, Bool-cases, inl, inr, Option, none, some,
  Option-cases, List, [], ◌∷◌, ◌++◌, if◌then◌else◌, ◌==◌,
}
use mathlib.Core.Path.{subst}
use mathlib.Core.Option.{some-injective}
use par_seval.Common.Options.{◌>>=◌}
use par_seval.Scalar.Term.{Value}
use par_seval.Scalar.Evaluate.{Runtime, Assignment, not_distinct, is_none}
use par_seval.Scalar.Comparisons.{same_value_iff, same_value_refl}
use par_seval.Smt.Formula.{
  Formula, known, atom, conjunction, disjunction, Formulas, no_formulas, formulas, Test, eq_var,
  ne_var, atom_holds, holds, all_hold, any_holds,
}
use par_seval.Smt.Links.{Link, equal_link, unequal_link, consistent}
use par_seval.Smt.Links.Forest.{==-eq}
use par_seval.Smt.Links.Consistency.{Agrees, AllAgree, consistent-true, agree-append}
use par_seval.Smt.Search.{
  Spaces, State, with_spaces, with_choices, add_link, space_of, put, narrow_input, apply_atom,
  apply, apply_all,
}

-- What the spaces promise of one assignment: its values fit the fresh spaces, and a space that its
-- value fits, narrowed by an atom that holds, reports that values remain and still fits the value; its
-- fields `null` and `equals` say what they mean of every value that fits.
pub record IsSound (k : Spaces) (r : Runtime) (env : Assignment) : Type 1 where
  pub Fits : k.Carrier → Option Value → Type 0
  pub fresh_fits : (x : ℕ) → Fits (k.fresh x) (env x)
  pub narrow_fits :
      (x : ℕ) (t : Test) (c : k.Carrier)
      → Fits c (env x)
      → atom_holds r env x t ≡ true
      → ((k.narrow t c).0 ≡ true) × Fits (k.narrow t c).1 (env x)
  pub null_fits :
      (c : k.Carrier) (o : Option Value) (b : Bool) → Fits c o → k.null c ≡ some b → is_none o ≡ b
  pub equals_fits :
      (c : k.Carrier) (o : Option Value) (e : Value) → Fits c o → k.equals c ≡ some e → o ≡ some e

-- SQL equality of two values, NULL included, is equality.
pub not_distinct-eq : (a b : Option Value) → not_distinct a b ≡ true → a ≡ b
unfolding not_distinct
not_distinct-eq none none h = refl
not_distinct-eq (some a) (some b) h = ap some ((same_value_iff a b).0 h)
not_distinct-eq a b h = cc

pub not_distinct_refl : (a : Option Value) → not_distinct a a ≡ true
unfolding not_distinct
not_distinct_refl none = refl
not_distinct_refl (some a) = same_value_refl a

pub not_distinct-ne : (a b : Option Value) → not (not_distinct a b) ≡ true → a ≡ b → ⊥
not_distinct-ne a b h e =
    cc (subst (λ c. not (not_distinct a c) ≡ true) (sym e) h, not_distinct_refl a)

module _ (k : Spaces) (r : Runtime) (env : Assignment) (ok : IsSound k r env) where
  -- Every choice has an option that holds.
  unfoldable pub AllOpen : List Formulas → Type 0
  AllOpen [] = Unit
  AllOpen (c ∷ cs) = (any_holds r env c ≡ true) × AllOpen cs

  -- The assignment satisfies a state.
  pub record Satisfies (s : State k) : Type 0 where
    pub fits : (x : ℕ) (c : k.Carrier) → s.spaces x ≡ some c → ok.Fits c (env x)
    pub agree : AllAgree env s.links
    pub open_choices : AllOpen s.choices

  -- What an attempt to narrow a satisfied state gives.
  unfoldable pub Kept : Option (State k) → Type 0
  Kept none = ⊥
  Kept (some s) = Satisfies s

  pub Kept-bind :
      (o : Option (State k)) (f : State k → Option (State k))
      → Kept o
      → ((s : State k) → Satisfies s → Kept (f s))
      → Kept (o >>= f)
  unfolding Kept
  Kept-bind none f h g = h
  Kept-bind (some s) f h g = g s h

  AllOpen-append : (xs ys : List Formulas) → AllOpen xs → AllOpen ys → AllOpen (xs ++ ys)
  unfolding AllOpen
  AllOpen-append [] ys h g = g
  AllOpen-append (x ∷ xs) ys h g = (h.0, AllOpen-append xs ys h.1 g)

  pub with_choices-Satisfies :
      (s : State k) (cs : List Formulas)
      → Satisfies s
      → AllOpen cs
      → Satisfies (with_choices k s cs)
  with_choices-Satisfies s cs h g = record { fits = h.fits; agree = h.agree; open_choices = g }

  pub add_choice-Satisfies :
      (s : State k) (c : Formulas)
      → Satisfies s
      → any_holds r env c ≡ true
      → Satisfies (with_choices k s (s.choices ++ c ∷ []))
  add_choice-Satisfies s c h g =
      with_choices-Satisfies s (s.choices ++ c ∷ []) h
        (AllOpen-append s.choices (c ∷ []) h.open_choices (unfold AllOpen in (g, tt)))

  space_of-fits : (s : State k) (x : ℕ) → Satisfies s → ok.Fits (space_of k s x) (env x)
  unfolding space_of
  space_of-fits s x h = elim (Option-cases (s.spaces x)) [
    | inl e ↦ rw (space_of, e) (ok.fresh_fits x)
    | inr (c, e) ↦ rw (space_of, e) (h.fits x c e)
  ]

  put-fits :
      (s : State k) (x : ℕ) (c : k.Carrier)
      → Satisfies s
      → ok.Fits c (env x)
      → (y : ℕ) (d : k.Carrier) → put k x c s.spaces y ≡ some d
      → ok.Fits d (env y)
  unfolding put
  put-fits s x c h f y d e = elim (Bool-cases (y == x)) [
    | inl g ↦
        subst (λ z. ok.Fits z (env y)) (some-injective _ _ (rw g at e))
          (subst (λ z. ok.Fits c (env z)) (sym (==-eq y x g)) f)
    | inr g ↦ h.fits y d (rw g at e)
  ]

  if-Kept : (b : Bool) (s : State k) → b ≡ true → Satisfies s → Kept (if b then some s else none)
  unfolding Kept
  if-Kept true s e h = h
  if-Kept false s e h = cc

  narrow_input-Kept :
      (x : ℕ) (t : Test) (s : State k)
      → Satisfies s
      → atom_holds r env x t ≡ true
      → Kept (narrow_input k x t s)
  unfolding narrow_input
  narrow_input-Kept x t s h a =
      let n = ok.narrow_fits x t (space_of k s x) (space_of-fits s x h) a in
      let c = (k.narrow t (space_of k s x)).1 in
      if-Kept (k.narrow t (space_of k s x)).0 (with_spaces k s (put k x c s.spaces)) n.0
        (record { fits = put-fits s x c h n.1; agree = h.agree; open_choices = h.open_choices })

  add_link-Kept : (l : Link) (s : State k) → Satisfies s → Agrees env l → Kept (add_link k l s)
  unfolding add_link
  add_link-Kept l s h a =
      let every = agree-append env s.links (l ∷ []) h.agree (unfold AllAgree in (a, tt)) in
      if-Kept (consistent s.links l)
        (record { spaces = s.spaces; links = s.links ++ l ∷ []; choices = s.choices })
        (consistent-true env s.links l every)
        (record { fits = h.fits; agree = every; open_choices = h.open_choices })

  apply_atom-Kept :
      (x : ℕ) (t : Test) (s : State k)
      → Satisfies s
      → atom_holds r env x t ≡ true
      → Kept (apply_atom k x t s)
  unfolding apply_atom
  apply_atom-Kept x (eq_var y) s h a =
      add_link-Kept (equal_link x y) s h
        (unfold Agrees atom_holds in not_distinct-eq (env x) (env y) a)
  apply_atom-Kept x (ne_var y) s h a =
      add_link-Kept (unequal_link x y) s h
        (unfold Agrees atom_holds in not_distinct-ne (env x) (env y) a)
  apply_atom-Kept x t s h a = narrow_input-Kept x t s h a

  and-cases : (a b : Bool) → a && b ≡ true → (a ≡ true) × (b ≡ true)
  and-cases true b h = (refl, h)
  and-cases false b h = cc

  mutual
    unfolding apply holds Kept

    -- `narrow` succeeds on a formula that holds, and the assignment satisfies what it gives.
    pub apply-Kept :
        (f : Formula) (s : State k) → Satisfies s → holds r env f ≡ true → Kept (apply k f s)
    apply-Kept (known true) s h a = h
    apply-Kept (known false) s h a = cc
    apply-Kept (atom x t) s h a = apply_atom-Kept x t s h a
    apply-Kept (conjunction fs) s h a = apply_all-Kept fs s h a
    apply-Kept (disjunction fs) s h a = add_choice-Satisfies s fs h a

    apply_all-Kept :
        (fs : Formulas) (s : State k)
        → Satisfies s
        → all_hold r env fs ≡ true
        → Kept (apply_all k fs s)
    apply_all-Kept no_formulas s h a = h
    apply_all-Kept (formulas f fs) s h a =
        let b = and-cases (holds r env f) (all_hold r env fs) a in
        Kept-bind (apply_all k fs s) (apply k f) (apply_all-Kept fs s h b.1)
          (λ s1 g. apply-Kept f s1 g b.0)
