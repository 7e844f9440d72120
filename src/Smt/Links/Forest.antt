-- ===== src/Smt/Links/Forest.antt =====
-- `root` of `_consistent` in src/parseval/smt/csp.py: its loop ends, and what a new parent does to it.
use par_seval.Common.{
  ℕ, zero, suc, ◌+◌, ◌≤◌, ◌≡◌, refl, sym, ap, ◌∙◌, true, false, Bool-cases, inl, inr, arith, List,
  [], ◌∷◌, length, if◌then◌else◌, ◌==◌,
}
use mathlib.Core.Path.{subst}
use par_seval.Smt.Links.{
  Link, equal_link, unequal_link, Parents, no_parents, redirect, root, forest,
}

pub ==_refl : (a : ℕ) → (a == a) ≡ true
==_refl a = ground arith

pub ==-eq : (a b : ℕ) → (a == b) ≡ true → a ≡ b
==-eq a b h = ground arith

-- A member is its own parent.
abbrev pub IsTop : Parents → ℕ → Type 0
IsTop p x = p x ≡ x

-- Every chain of parents ends within a number of steps.
abbrev pub IsShallow : ℕ → Parents → Type 0
IsShallow n p = (x : ℕ) → IsTop p (root n p x)

root-top : (n : ℕ) (p : Parents) (x : ℕ) → IsTop p x → root n p x ≡ x
unfolding root
root-top zero p x h = refl
root-top (suc n) p x h = rw (h, ==_refl x) refl

root-step : (n : ℕ) (p : Parents) (x : ℕ) → (p x == x) ≡ false → root (suc n) p x ≡ root n p (p x)
unfolding root
root-step n p x h = rw h refl

-- More rounds give the same root.
pub root-more :
    (m n : ℕ) (p : Parents) (x : ℕ) → m ≤ n → IsTop p (root m p x) → root n p x ≡ root m p x
unfolding root
root-more zero n p x h t = root-top n p x t
root-more (suc m) zero p x h t = absurd (omega arith)
root-more (suc m) (suc n) p x h t = elim (Bool-cases (p x == x)) [
  | inl e ↦ let f = ==-eq (p x) x e in root-top (suc n) p x f ∙ sym (root-top (suc m) p x f)
  | inr e ↦
      root-step n p x e
      ∙ root-more m n p (p x) (omega arith) (subst (λ y. IsTop p y) (root-step m p x e) t)
      ∙ sym (root-step m p x e)
]

module _ (p : Parents) (a b : ℕ) (ta : IsTop p a) (tb : IsTop p b) where
  target : redirect p a b b ≡ b
  unfolding redirect
  target = elim (Bool-cases (b == a)) [ inl e ↦ rw e refl | inr e ↦ rw e tb ]

  topmost :
      (m : ℕ) (x : ℕ) → IsTop p x → root (suc m) (redirect p a b) x ≡ (if x == a then b else x)
  topmost m x f = elim (Bool-cases (x == a)) [
    | inl g ↦ rw g (
        let moved : redirect p a b x ≡ b = unfold redirect in rw g refl in
        elim (Bool-cases (redirect p a b x == x)) [
          | inl k ↦
              root-top (suc m) (redirect p a b) x (==-eq _ _ k)
              ∙ sym (==-eq (redirect p a b x) x k)
              ∙ moved
          | inr k ↦
              root-step m (redirect p a b) x k
              ∙ ap (root m (redirect p a b)) moved
              ∙ root-top m (redirect p a b) b target
        ])
    | inr g ↦ rw g (root-top (suc m) (redirect p a b) x (unfold redirect in rw g f))
  ]

  -- What is not its own parent is not `a`, and keeps its parent.
  kept : (x : ℕ) → (p x == x) ≡ false → redirect p a b x ≡ p x
  kept x e =
      unfold redirect in
      elim (Bool-cases (x == a)) [
        | inl g ↦ cc (rw (==-eq x a g, ta, ==_refl a) at e)
        | inr g ↦ rw g refl
      ]

  -- What led to `a` leads to `b`, and all else where it did.
  pub root-redirect :
      (m : ℕ) (x : ℕ)
      → IsTop p (root m p x)
      → root (suc m) (redirect p a b) x ≡ (if root m p x == a then b else root m p x)
  root-redirect zero x t = topmost zero x (unfold root in t) ∙ (unfold root in refl)
  root-redirect (suc m) x t = elim (Bool-cases (p x == x)) [
    | inl e ↦
        let f = ==-eq (p x) x e in
        topmost (suc m) x f ∙ ap (λ y. if y == a then b else y) (sym (root-top (suc m) p x f))
    | inr e ↦
        let q = kept x e in
        root-step (suc m) (redirect p a b) x (ap (λ y. y == x) q ∙ e)
        ∙ ap (root (suc m) (redirect p a b)) q
        ∙ root-redirect m (p x) (subst (λ y. IsTop p y) (root-step m p x e) t)
        ∙ ap (λ y. if y == a then b else y) (sym (root-step m p x e))
  ]

  pub root-IsShallow : (m : ℕ) → IsShallow m p → IsShallow (suc m) (redirect p a b)
  root-IsShallow m h x =
      subst (λ y. IsTop (redirect p a b) y) (sym (root-redirect m x (h x)))
        (elim (Bool-cases (root m p x == a)) [
          | inl g ↦ rw g target
          | inr g ↦ rw g (unfold redirect in rw g (h x))
        ])

module _ (n m : ℕ) (p : Parents) (a b : ℕ) (k : suc m ≤ n) (h : IsShallow m p) where
  pub root-IsTop : (x : ℕ) → IsTop p (root n p x)
  root-IsTop x = subst (λ y. IsTop p y) (sym (root-more m n p x (omega arith) (h x))) (h x)

  pub merged-IsShallow : IsShallow (suc m) (redirect p (root n p a) (root n p b))
  merged-IsShallow = root-IsShallow p (root n p a) (root n p b) (root-IsTop a) (root-IsTop b) m h

  -- The members of one tree get the root of the other.
  pub merged-root :
      (x : ℕ)
      → root n (redirect p (root n p a) (root n p b)) x
        ≡ (if root n p x == root n p a then root n p b else root n p x)
  merged-root x =
      root-more (suc m) n (redirect p (root n p a) (root n p b)) x k (merged-IsShallow x)
      ∙ root-redirect p (root n p a) (root n p b) (root-IsTop a) (root-IsTop b) m x (h x)
      ∙ ap (λ z. if z == root n p a then root n p b else z)
          (sym (root-more m n p x (omega arith) (h x)))

module _ (n : ℕ) where
  -- A redirection of a root to another keeps the chains of parents short enough.
  pub forest-IsShallow :
      (m : ℕ) (p : Parents) (ls : List Link)
      → m + length ls ≤ n
      → IsShallow m p
      → IsShallow n (forest n p ls)
  unfolding forest
  forest-IsShallow m p [] k h =
      λ x. let e = root-more m n p x (omega arith) (h x) in subst (λ y. IsTop p y) (sym e) (h x)
  forest-IsShallow m p (equal_link a b ∷ ls) k h =
      forest-IsShallow (suc m) (redirect p (root n p a) (root n p b)) ls (omega arith)
        (merged-IsShallow n m p a b (omega arith) h)
  forest-IsShallow m p (unequal_link a b ∷ ls) k h = forest-IsShallow m p ls (omega arith) h

-- No chain of parents that the equalities of a list of links give is longer than the list, so the
-- loop of `root` ends.
pub root-ends :
    (ls : List Link) (x : ℕ)
    → forest (length ls) no_parents ls (root (length ls) (forest (length ls) no_parents ls) x)
      ≡ root (length ls) (forest (length ls) no_parents ls) x
root-ends ls x = forest-IsShallow (length ls) 0 no_parents ls (omega arith) (λ y. refl) x
