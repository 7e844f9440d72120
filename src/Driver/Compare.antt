-- ===== src/Driver/Compare.antt =====
-- What `differ` of src/parseval/main.py decides of two lists of rows.
use par_seval.Common.{
  ℕ, ◌≡◌, refl, sym, ap, ap₂, ◌∙◌, Bool, true, false, not, ◌||◌, Bool-cases, inl, inr, arith, List,
  [], ◌∷◌, ◌++◌, ◌==◌, ◌↔◌,
}
use mathlib.Core.Path.{subst}
use par_seval.Smt.Normalizer.Weights.Laws.{and-eq-true}
use par_seval.Driver.{
  rows, same_list, has_row, all_in, same_set, occurrences, same_counts, same_bag, differ,
}

same_list-eq : (xs ys : List ℕ) → same_list xs ys ≡ true → xs ≡ ys
unfolding same_list
same_list-eq [] [] h = refl
same_list-eq (a ∷ xs) (b ∷ ys) h = ap₂ ◌∷◌ (ground arith) (same_list-eq xs ys (ground arith))
same_list-eq [] (b ∷ ys) h = cc
same_list-eq (a ∷ xs) [] h = cc

same_list_refl : (xs : List ℕ) → same_list xs xs ≡ true
unfolding same_list
same_list_refl [] = refl
same_list_refl (a ∷ xs) = ground (arith, same_list_refl xs)

-- Ordered results differ exactly when the lists of rows do.
same_list_iff : (xs ys : List ℕ) → (same_list xs ys ≡ true) ↔ (xs ≡ ys)
same_list_iff xs ys =
    (same_list-eq xs ys, λ e. subst (λ zs. same_list xs zs ≡ true) e (same_list_refl xs))

all_in-has :
    (xs ys : List ℕ) → all_in xs ys ≡ true → (a : ℕ) → has_row a xs ≡ true → has_row a ys ≡ true
unfolding all_in has_row
all_in-has [] ys h a k = cc
all_in-has (b ∷ xs) ys h a k = elim (Bool-cases (a == b)) [
  | inl e ↦ subst (λ c. has_row c ys ≡ true) (ground arith) (and-eq-true _ _ h).0
  | inr e ↦ all_in-has xs ys (and-eq-true _ _ h).1 a (rw e at k)
]

has-all_in :
    (xs ys : List ℕ) → ((a : ℕ) → has_row a xs ≡ true → has_row a ys ≡ true) → all_in xs ys ≡ true
unfolding all_in has_row
has-all_in [] ys h = refl
has-all_in (b ∷ xs) ys h =
    rw (h b (ground arith), has-all_in xs ys (λ a k. h a (ground arith))) refl

same_set_iff : (xs ys : List ℕ) → (same_set xs ys ≡ true) ↔ ((a : ℕ) → has_row a xs ≡ has_row a ys)
unfolding same_set
same_set_iff xs ys = (
  forward,
  λ h. rw (has-all_in xs ys (λ a k. sym (h a) ∙ k), has-all_in ys xs (λ a k. h a ∙ k)) refl,
)
  where
    forward : same_set xs ys ≡ true → (a : ℕ) → has_row a xs ≡ has_row a ys
    forward h a = ground (
      arith,
      all_in-has xs ys ((and-eq-true (all_in xs ys) (all_in ys xs) h).0) a,
      all_in-has ys xs ((and-eq-true (all_in xs ys) (all_in ys xs) h).1) a,
    )

counts-agree :
    (keys xs ys : List ℕ)
    → same_counts keys xs ys ≡ true
    → (a : ℕ) → has_row a keys ≡ true
    → occurrences a xs ≡ occurrences a ys
unfolding same_counts has_row
counts-agree [] xs ys h a k = cc
counts-agree (b ∷ keys) xs ys h a k = elim (Bool-cases (a == b)) [
  | inl e ↦
      subst (λ c. occurrences c xs ≡ occurrences c ys) (ground arith)
        (eq-of (occurrences b xs) (occurrences b ys) (and-eq-true _ _ h).0)
  | inr e ↦ counts-agree keys xs ys (and-eq-true _ _ h).1 a (rw e at k)
]
  where
    eq-of : (m n : ℕ) → (m == n) ≡ true → m ≡ n
    eq-of m n h = ground arith

agree-counts :
    (keys xs ys : List ℕ)
    → ((a : ℕ) → occurrences a xs ≡ occurrences a ys)
    → same_counts keys xs ys ≡ true
unfolding same_counts
agree-counts [] xs ys h = refl
agree-counts (b ∷ keys) xs ys h = rw (h b, agree-counts keys xs ys h) (ground arith)

absent-zero : (a : ℕ) (xs : List ℕ) → has_row a xs ≡ false → occurrences a xs ≡ 0
unfolding has_row occurrences
absent-zero a [] h = refl
absent-zero a (b ∷ xs) h = ground (arith, absent-zero a xs)

has_row-append : (a : ℕ) (xs ys : List ℕ) → has_row a (xs ++ ys) ≡ has_row a xs || has_row a ys
unfolding has_row
has_row-append a [] ys = refl
has_row-append a (b ∷ xs) ys = rw (has_row-append a xs ys) (ground arith)

same_bag_iff :
    (xs ys : List ℕ) → (same_bag xs ys ≡ true) ↔ ((a : ℕ) → occurrences a xs ≡ occurrences a ys)
unfolding same_bag
same_bag_iff xs ys = (forward, agree-counts (xs ++ ys) xs ys)
  where
    forward : same_counts (xs ++ ys) xs ys ≡ true → (a : ℕ) → occurrences a xs ≡ occurrences a ys
    forward h a = elim (Bool-cases (has_row a (xs ++ ys))) [
      | inl e ↦ counts-agree (xs ++ ys) xs ys h a e
      | inr e ↦
          let g : has_row a xs || has_row a ys ≡ false = sym (has_row-append a xs ys) ∙ e in
          absent-zero a xs (ground arith) ∙ sym (absent-zero a ys (ground arith))
    ]

-- When two lists of rows are read as sets, lists or bags.
abbrev pub Agree : Bool → Bool → List ℕ → List ℕ → Type 0
Agree ordered true xs ys = (a : ℕ) → has_row a xs ≡ has_row a ys
Agree true false xs ys = xs ≡ ys
Agree false false xs ys = (a : ℕ) → occurrences a xs ≡ occurrences a ys

not-false : (b : Bool) → not b ≡ false → b ≡ true
not-false b h = ground arith

-- Two results that are rows do not differ exactly when they agree: as sets of rows with set
-- semantics, otherwise as lists when ordered and as bags, row by row with the same number of
-- occurrences, when not.
pub differ-rows :
    (ordered set_semantics : Bool) (xs ys : List ℕ)
    → (differ ordered set_semantics (rows xs) (rows ys) ≡ false) ↔ Agree ordered set_semantics xs ys
unfolding differ
differ-rows ordered true xs ys =
    (λ h. (same_set_iff xs ys).0 (not-false _ h), λ h. ap not ((same_set_iff xs ys).1 h))
differ-rows true false xs ys =
    (λ h. (same_list_iff xs ys).0 (not-false _ h), λ h. ap not ((same_list_iff xs ys).1 h))
differ-rows false false xs ys =
    (λ h. (same_bag_iff xs ys).0 (not-false _ h), λ h. ap not ((same_bag_iff xs ys).1 h))
