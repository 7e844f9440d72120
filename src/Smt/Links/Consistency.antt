-- ===== src/Smt/Links/Consistency.antt =====
-- `_consistent` of src/parseval/smt/csp.py decides whether values exist that respect the links.
use par_seval.Common.{
  ℕ, zero, suc, ◌+◌, ◌≤◌, ◌≡◌, refl, sym, ap, ◌∙◌, ◌↔◌, Bool, true, false, not, ◌||◌, Bool-cases,
  inl, inr, arith, List, [], ◌∷◌, ◌++◌, length, if◌then◌else◌, ◌==◌,
}
use par_seval.Smt.Links.{
  Link, equal_link, unequal_link, Parents, no_parents, redirect, root, forest, clashes, consistent,
}
use par_seval.Smt.Links.Forest.{==_refl, ==-eq, IsShallow, merged-root, merged-IsShallow}

or-eq-false : (a b : Bool) → a || b ≡ false → (a ≡ false) × (b ≡ false)
or-eq-false true b h = cc
or-eq-false false b h = (refl, h)

module _ {A : Type 0} (env : ℕ → A) where
  -- What a link says of the values of its inputs.
  unfoldable pub Agrees : Link → Type 0
  Agrees (equal_link a b) = env a ≡ env b
  Agrees (unequal_link a b) = env a ≡ env b → ⊥

  unfoldable pub AllAgree : List Link → Type 0
  unfolding Agrees
  AllAgree [] = Unit
  AllAgree (l ∷ ls) = Agrees l × AllAgree ls

  -- Every input has the value of its parent.
  abbrev IsShared : Parents → Type 0
  IsShared p = (x : ℕ) → env (p x) ≡ env x

  root-IsShared : (n : ℕ) (p : Parents) → IsShared p → (x : ℕ) → env (root n p x) ≡ env x
  unfolding root
  root-IsShared zero p h x = refl
  root-IsShared (suc n) p h x = elim (Bool-cases (p x == x)) [
    | inl e ↦ rw e refl
    | inr e ↦ rw e (root-IsShared n p h (p x) ∙ h x)
  ]

  redirect-IsShared :
      (p : Parents) (a b : ℕ) → IsShared p → env a ≡ env b → IsShared (redirect p a b)
  unfolding redirect
  redirect-IsShared p a b h k x = elim (Bool-cases (x == a)) [
    | inl e ↦ rw e (sym k ∙ sym (ap env (==-eq x a e)))
    | inr e ↦ rw e (h x)
  ]

  forest-IsShared :
      (n : ℕ) (p : Parents) (ls : List Link) → IsShared p → AllAgree ls → IsShared (forest n p ls)
  unfolding forest AllAgree
  forest-IsShared n p [] h k = h
  forest-IsShared n p (equal_link a b ∷ ls) h k =
      forest-IsShared n (redirect p (root n p a) (root n p b)) ls
        (redirect-IsShared p (root n p a) (root n p b) h
          (root-IsShared n p h a ∙ k.0 ∙ sym (root-IsShared n p h b)))
        k.1
  forest-IsShared n p (unequal_link a b ∷ ls) h k = forest-IsShared n p ls h k.1

  clashes-false :
      (n : ℕ) (p : Parents) (ls : List Link) → IsShared p → AllAgree ls → clashes n p ls ≡ false
  unfolding clashes AllAgree
  clashes-false n p [] h k = refl
  clashes-false n p (equal_link a b ∷ ls) h k = clashes-false n p ls h k.1
  clashes-false n p (unequal_link a b ∷ ls) h k = elim (Bool-cases (root n p a == root n p b)) [
    | inl e ↦
        absurd (k.0 (sym (root-IsShared n p h a) ∙ ap env (==-eq _ _ e) ∙ root-IsShared n p h b))
    | inr e ↦ rw e (clashes-false n p ls h k.1)
  ]

  -- Links that some values respect are found consistent.
  pub consistent-true :
      (ls : List Link) (new : Link) → AllAgree (ls ++ new ∷ []) → consistent ls new ≡ true
  unfolding consistent
  consistent-true ls new k =
      let every = ls ++ new ∷ [] in
      ap not (
        clashes-false (length every) (forest (length every) no_parents every) every
          (forest-IsShared (length every) no_parents every (λ x. refl) k) k)

  pub agree-append : (xs ys : List Link) → AllAgree xs → AllAgree ys → AllAgree (xs ++ ys)
  unfolding AllAgree
  agree-append [] ys h k = k
  agree-append (x ∷ xs) ys h k = (h.0, agree-append xs ys h.1 k)

  -- The equalities among the links hold.
  unfoldable Joins : List Link → Type 0
  Joins [] = Unit
  Joins (equal_link a b ∷ ls) = (env a ≡ env b) × Joins ls
  Joins (unequal_link a b ∷ ls) = Joins ls

module _ (n : ℕ) where
  -- Members with one root keep one root.
  forest-together :
      (m : ℕ) (p : Parents) (ls : List Link) (x y : ℕ)
      → m + length ls ≤ n
      → IsShallow m p
      → root n p x ≡ root n p y
      → root n (forest n p ls) x ≡ root n (forest n p ls) y
  unfolding forest
  forest-together m p [] x y k h e = e
  forest-together m p (unequal_link a b ∷ ls) x y k h e =
      forest-together m p ls x y (omega arith) h e
  forest-together m p (equal_link a b ∷ ls) x y k h e =
      let j : suc m ≤ n = omega arith in
      forest-together (suc m) (redirect p (root n p a) (root n p b)) ls x y (omega arith)
        (merged-IsShallow n m p a b j h)
        (merged-root n m p a b j h x
          ∙ ap (λ z. if z == root n p a then root n p b else z) e
          ∙ sym (merged-root n m p a b j h y))

  unchanged : (c r : ℕ) → (if c == r then c else c) ≡ c
  unchanged c r = elim (Bool-cases (c == r)) [ inl e ↦ rw e refl | inr e ↦ rw e refl ]

  forest-Joins :
      (m : ℕ) (p : Parents) (ls : List Link)
      → m + length ls ≤ n
      → IsShallow m p
      → Joins (root n (forest n p ls)) ls
  unfolding Joins forest
  forest-Joins m p [] k h = tt
  forest-Joins m p (unequal_link a b ∷ ls) k h = forest-Joins m p ls (omega arith) h
  forest-Joins m p (equal_link a b ∷ ls) k h =
      let j : suc m ≤ n = omega arith in
      let q = redirect p (root n p a) (root n p b) in
      let s = merged-IsShallow n m p a b j h in
      (
        forest-together (suc m) q ls a b (omega arith) s (
            merged-root n m p a b j h a
            ∙ rw (==_refl (root n p a)) refl
            ∙ sym (unchanged (root n p b) (root n p a))
            ∙ sym (merged-root n m p a b j h b)),
        forest-Joins (suc m) q ls (omega arith) s,
      )

  Joins-AllAgree :
      (p : Parents) (ls : List Link)
      → Joins (root n p) ls
      → clashes n p ls ≡ false
      → AllAgree (root n p) ls
  unfolding Joins clashes AllAgree
  Joins-AllAgree p [] k h = tt
  Joins-AllAgree p (equal_link a b ∷ ls) k h = (k.0, Joins-AllAgree p ls k.1 h)
  Joins-AllAgree p (unequal_link a b ∷ ls) k h =
      let e = or-eq-false (root n p a == root n p b) (clashes n p ls) h in
      (λ f. cc (ap (λ z. z == root n p b) f, e.0, ==_refl (root n p b)), Joins-AllAgree p ls k e.1)

-- The test of a new link succeeds exactly when some values of the inputs respect all the links.
pub consistent-IsExact :
    (ls : List Link) (new : Link)
    → (consistent ls new ≡ true) ↔ ((env : ℕ → ℕ) × AllAgree env (ls ++ new ∷ []))
unfolding consistent
consistent-IsExact ls new =
    let every = ls ++ new ∷ [] in
    let n = length every in
    let p = forest n no_parents every in
    (
      λ h. (
        root n p,
        Joins-AllAgree n p every (forest-Joins n 0 no_parents every (omega arith) (λ x. refl))
            (ground arith),
      ),
      λ (env, k). consistent-true env ls new k,
    )
