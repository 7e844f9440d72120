-- ===== src/Smt/Search/Entailed.antt =====
-- `_entailed` of src/parseval/smt/csp.py: a formula that it finds entailed does hold.
use par_seval.Common.{
  ℕ, ◌≡◌, refl, sym, ap, ◌∙◌, Bool, true, false, not, ◌&&◌, Bool-cases, inl, inr, arith, some,
  Option-cases, List, [], ◌∷◌, ◌==◌, if◌then◌else◌,
}
use mathlib.Core.Path.{subst}
use par_seval.Scalar.Term.{Value}
use par_seval.Scalar.Evaluate.{Runtime, Assignment, not_distinct, is_none}
use par_seval.Smt.Formula.{
  Formula, known, atom, conjunction, disjunction, Formulas, no_formulas, formulas, Test, eq, ne, lt,
  le, gt, ge, is_null, not_null, matches, not_matches, eq_var, ne_var, passes, some_passes,
  atom_holds, holds, all_hold, any_holds,
}
use par_seval.Smt.Links.{Link, equal_link, unequal_link}
use par_seval.Smt.Links.Forest.{==-eq}
use par_seval.Smt.Links.Consistency.{Agrees, AllAgree}
use par_seval.Smt.Search.{
  Spaces, State, links_pair, has_link, fixed_passes, fixed_apart, equals_of, null_is, entailed_atom,
  entailed, all_entailed, any_entailed,
}
use par_seval.Smt.Search.Sound.{IsSound, Satisfies, not_distinct_refl}

module _ (k : Spaces) (r : Runtime) (env : Assignment) (ok : IsSound k r env) where
  and-cases : (a b : Bool) → a && b ≡ true → (a ≡ true) × (b ≡ true)
  and-cases true b h = (refl, h)
  and-cases false b h = cc

  links_pair-equal : (x y : ℕ) (l : Link) → Agrees env l → links_pair x y l ≡ true → env x ≡ env y
  unfolding links_pair Agrees
  links_pair-equal x y (unequal_link a b) g h = cc
  links_pair-equal x y (equal_link a b) g h = elim (Bool-cases (a == x && b == y)) [
    | inl e ↦
        let p = and-cases (a == x) (b == y) e in
        ap env (sym (==-eq a x p.0)) ∙ g ∙ ap env (==-eq b y p.1)
    | inr e ↦
        let p = and-cases (a == y) (b == x) (rw e at h) in
        ap env (sym (==-eq b x p.1)) ∙ sym g ∙ ap env (==-eq a y p.0)
  ]

  has_link-equal :
      (x y : ℕ) (ls : List Link) → AllAgree env ls → has_link x y ls ≡ true → env x ≡ env y
  unfolding has_link AllAgree
  has_link-equal x y [] g h = cc
  has_link-equal x y (l ∷ ls) g h = elim (Bool-cases (links_pair x y l)) [
    | inl e ↦ links_pair-equal x y l g.0 e
    | inr e ↦ has_link-equal x y ls g.1 (rw e at h)
  ]

  equals_of-value :
      (s : State k) (x : ℕ) (c : Value)
      → Satisfies k r env ok s
      → equals_of k s x ≡ some c
      → env x ≡ some c
  unfolding equals_of
  equals_of-value s x c h e = elim (Option-cases (s.spaces x)) [
    | inl n ↦ cc (rw (n, equals_of) at e)
    | inr (d, n) ↦ ok.equals_fits d (env x) c (h.fits x d n) (rw (n, equals_of) at e)
  ]

  fixed-passes :
      (s : State k) (x : ℕ) (t : Test)
      → Satisfies k r env ok s
      → fixed_passes k t (equals_of k s x) ≡ true
      → some_passes t (env x) ≡ true
  unfolding fixed_passes
  fixed-passes s x t h a = elim (Option-cases (equals_of k s x)) [
    | inl n ↦ cc (rw n at a)
    | inr (c, n) ↦ rw (equals_of-value s x c h n) (rw n at a)
  ]

  null_is-none :
      (b : Bool) (s : State k) (x : ℕ)
      → Satisfies k r env ok s
      → null_is k b s x ≡ true
      → is_none (env x) ≡ b
  unfolding null_is
  null_is-none b s x h a = elim (Option-cases (s.spaces x)) [
    | inl n ↦ cc (rw (n, null_is) at a)
    | inr (d, n) ↦ elim (Option-cases (k.null d)) [
      | inl m ↦ cc (rw (n, m, null_is) at a)
      | inr (c, m) ↦ ok.null_fits d (env x) c (h.fits x d n) m ∙ flag b c (rw (n, m, null_is) at a)
    ]
  ]
    where
      flag : (b c : Bool) → (if b then c else not c) ≡ true → c ≡ b
      flag true true h = refl
      flag false false h = refl
      flag true false h = cc
      flag false true h = cc

  fixed_apart-differ :
      (s : State k) (x y : ℕ)
      → Satisfies k r env ok s
      → fixed_apart k (equals_of k s x) (equals_of k s y) ≡ true
      → not (not_distinct (env x) (env y)) ≡ true
  unfolding fixed_apart
  fixed_apart-differ s x y h a = elim (Option-cases (equals_of k s x)) [
    | inl n ↦ cc (rw n at a)
    | inr (c, n) ↦ elim (Option-cases (equals_of k s y)) [
      | inl m ↦ cc (rw (n, m) at a)
      | inr (d, m) ↦
          rw (equals_of-value s x c h n, equals_of-value s y d h m)
            (unfold not_distinct in rw (n, m) at a)
    ]
  ]

  entailed_atom-holds :
      (s : State k) (x : ℕ) (t : Test)
      → Satisfies k r env ok s
      → entailed_atom k s x t ≡ true
      → atom_holds r env x t ≡ true
  unfolding entailed_atom atom_holds
  entailed_atom-holds s x (eq_var y) h a =
      subst (λ c. not_distinct (env x) c ≡ true) (has_link-equal x y s.links h.agree a)
        (not_distinct_refl (env x))
  entailed_atom-holds s x (ne_var y) h a = fixed_apart-differ s x y h a
  entailed_atom-holds s x (passes p) h a = cc
  entailed_atom-holds s x is_null h a = null_is-none true s x h a
  entailed_atom-holds s x not_null h a = rw (null_is-none false s x h a) refl
  entailed_atom-holds s x (eq c) h a = fixed-passes s x (eq c) h a
  entailed_atom-holds s x (ne c) h a = fixed-passes s x (ne c) h a
  entailed_atom-holds s x (lt c) h a = fixed-passes s x (lt c) h a
  entailed_atom-holds s x (le c) h a = fixed-passes s x (le c) h a
  entailed_atom-holds s x (gt c) h a = fixed-passes s x (gt c) h a
  entailed_atom-holds s x (ge c) h a = fixed-passes s x (ge c) h a
  entailed_atom-holds s x (matches c) h a = fixed-passes s x (matches c) h a
  entailed_atom-holds s x (not_matches c) h a = fixed-passes s x (not_matches c) h a

  mutual
    unfolding entailed holds

    entailed-lem :
        (s : State k) (f : Formula)
        → Satisfies k r env ok s
        → entailed k s f ≡ true
        → holds r env f ≡ true
    entailed-lem s (known b) h a = a
    entailed-lem s (atom x t) h a = entailed_atom-holds s x t h a
    entailed-lem s (conjunction fs) h a = all_entailed-hold s fs h a
    entailed-lem s (disjunction fs) h a = any_entailed-holds s fs h a

    all_entailed-hold :
        (s : State k) (fs : Formulas)
        → Satisfies k r env ok s
        → all_entailed k s fs ≡ true
        → all_hold r env fs ≡ true
    all_entailed-hold s no_formulas h a = refl
    all_entailed-hold s (formulas f fs) h a =
        let b = and-cases (entailed k s f) (all_entailed k s fs) a in
        rw (entailed-lem s f h b.0) (all_entailed-hold s fs h b.1)

    any_entailed-holds :
        (s : State k) (fs : Formulas)
        → Satisfies k r env ok s
        → any_entailed k s fs ≡ true
        → any_holds r env fs ≡ true
    any_entailed-holds s no_formulas h a = cc
    any_entailed-holds s (formulas f fs) h a = elim (Bool-cases (entailed k s f)) [
      | inl e ↦ rw (entailed-lem s f h e) refl
      | inr e ↦ let i = any_entailed-holds s fs h (rw e at a) in ground (arith, i)
    ]

-- Whatever assignment satisfies the state of the search, a formula that the state entails holds
-- under it.
pub entailed-holds :
    (k : Spaces) (r : Runtime) (env : Assignment) (ok : IsSound k r env) (s : State k) (f : Formula)
    → Satisfies k r env ok s
    → entailed k s f ≡ true
    → holds r env f ≡ true
entailed-holds k r env ok s f h a = entailed-lem k r env ok s f h a
