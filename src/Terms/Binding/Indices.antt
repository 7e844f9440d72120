-- ===== src/Terms/Binding/Indices.antt =====
-- The meaning of terms with bound variables, and assignments that a shift, a substitution or a swap
-- relates (src/parseval/terms/binding.py).
use par_seval.Common.{
  ℕ, zero, suc, ◌+◌, ◌-◌, ◌≡◌, refl, sym, ap, ◌∙◌, Bool-cases, ◌⊎◌, inl, inr, arith, some, List, [],
  ◌∷◌, ltb, ◌<◌, ◌≤◌,
}
use mathlib.Core.Path.{subst}
use par_seval.Common.Int.{ℤ, pos, negsuc, ◌+ℤ◌}
use par_seval.Terms.Binding.{
  Kind, row_lambda, let_rel, Term, row_var, rel_var, node, Terms, no_terms, terms,
  row_binders_in_child, relation_binders_in_child, landed, moved, shift_depth,
}

-- Rows and relations of some model; a node gets the meanings of its children as functions of the
-- row and the relation it may bind in them.
pub record Semantics : Type 1 where
  pub Row : Type 0
  pub Meaning : Type 0
  pub of_row : Row → Meaning
  pub interpret : Kind → ℕ → List (Row → Meaning → Meaning) → Meaning

abbrev pub push {ℓ} : {A : Type ℓ} → ℕ → A → (ℕ → A) → ℕ → A
push zero x env n = env n
push (suc k) x env zero = x
push (suc k) x env (suc n) = env n

module _ (s : Semantics) where
  unfoldable mutual
    unfolding row_binders_in_child relation_binders_in_child

    pub denote : (ℕ → s.Row) → (ℕ → s.Meaning) → Term → s.Meaning
    denote rows rels (row_var d _) = s.of_row (rows d)
    denote rows rels (rel_var d) = rels d
    denote rows rels (node k l ts) = s.interpret k l (denote_children rows rels k 0 ts)

    pub denote_children :
        (ℕ → s.Row) → (ℕ → s.Meaning) → Kind → ℕ → Terms → List (s.Row → s.Meaning → s.Meaning)
    denote_children rows rels k i no_terms = []
    denote_children rows rels k i (terms t ts) =
        (λ r m.
          denote (push (row_binders_in_child k i) r rows)
            (push (relation_binders_in_child k i) m rels) t)
        ∷ denote_children rows rels k (suc i) ts

-- Two assignments that a shift relates. They agree below the cutoff, where variables are bound; from
-- there on the second has the values of the first `k` places later, or `suc k` places earlier.
abbrev pub Follows {ℓ} : {A : Type ℓ} → ℤ → ℕ → (ℕ → A) → (ℕ → A) → Type ℓ
Follows (pos k) cutoff before after =
    ((n : ℕ) → n < cutoff → after n ≡ before n) × ((n : ℕ) → cutoff ≤ n → after (n + k) ≡ before n)
Follows (negsuc k) cutoff before after =
    ((n : ℕ) → n < cutoff → after n ≡ before n)
    × ((n : ℕ) → cutoff ≤ n → after n ≡ before (n + suc k))

-- The second assignment gives a shifted variable what the first gives the variable.
abbrev pub Tracks {ℓ} : {A : Type ℓ} → ℤ → ℕ → (ℕ → A) → (ℕ → A) → Type ℓ
Tracks delta cutoff before after =
    (n m : ℕ) → shift_depth delta cutoff n ≡ some m → after m ≡ before n

shift_depth_up :
    (k c n m : ℕ) → shift_depth (pos k) c n ≡ some m → ((n < c) × (m ≡ n)) ⊎ ((c ≤ n) × (m ≡ n + k))
unfolding shift_depth moved landed ◌+ℤ◌
shift_depth_up k c n m h = ground arith

shift_depth_down :
    (k c n m : ℕ)
    → shift_depth (negsuc k) c n ≡ some m
    → ((n < c) × (m ≡ n)) ⊎ ((c ≤ m) × (n ≡ m + suc k))
unfolding shift_depth moved landed ◌+ℤ◌
shift_depth_down k c n m h = ground arith

pub Follows-Tracks {ℓ} :
    {A : Type ℓ} (d : ℤ) (c : ℕ) (before after : ℕ → A)
    → Follows d c before after
    → Tracks d c before after
Follows-Tracks (pos k) c before after (below, above) n m h = elim (shift_depth_up k c n m h) [
  | inl (l, e) ↦ ap after e ∙ below n l
  | inr (l, e) ↦ ap after e ∙ above n l
]
Follows-Tracks (negsuc k) c before after (below, above) n m h = elim (shift_depth_down k c n m h) [
  | inl (l, e) ↦ ap after e ∙ below n l
  | inr (l, e) ↦ above m l ∙ ap before (sym e)
]

shift_depth-zero : (d : ℤ) (c m : ℕ) → shift_depth d (suc c) 0 ≡ some m → m ≡ 0
unfolding shift_depth
shift_depth-zero d c m h = ground arith

shift_depth-suc :
    (d : ℤ) (c n m : ℕ)
    → shift_depth d (suc c) (suc n) ≡ some m
    → (k : ℕ) × (m ≡ suc k) × (shift_depth d c n ≡ some k)
unfolding shift_depth moved landed ◌+ℤ◌
shift_depth-suc (pos a) c n m h = elim (Bool-cases (ltb n c)) [
  | inl e ↦ (n, ground arith, rw e refl)
  | inr e ↦ (n + a, ground arith, ground arith)
]
shift_depth-suc (negsuc a) c n m h = elim (Bool-cases (ltb n c)) [
  | inl e ↦ (n, ground arith, rw e refl)
  | inr e ↦ (n - suc a, ground arith, ground arith)
]

pub push-Tracks {ℓ} :
    {A : Type ℓ} (d : ℤ) (c k : ℕ) (x : A) (before after : ℕ → A)
    → (k ≡ 0) ⊎ (k ≡ 1)
    → Tracks d c before after
    → Tracks d (c + k) (push k x before) (push k x after)
push-Tracks d c k x before after (inl e) f =
    subst (λ k. Tracks d (c + k) (push k x before) (push k x after)) (sym e)
      (subst (λ c'. Tracks d c' before after) (omega arith) f)
push-Tracks d c k x before after (inr e) f =
    subst (λ k. Tracks d (c + k) (push k x before) (push k x after)) (sym e)
      (subst (λ c'. Tracks d c' (push 1 x before) (push 1 x after)) (omega arith) under)
  where
    under : Tracks d (suc c) (push 1 x before) (push 1 x after)
    under zero m h = ap (push 1 x after) (shift_depth-zero d c m h)
    under (suc n) m h = let (j, e, g) = shift_depth-suc d c n m h in ap (push 1 x after) e ∙ f n j g

pub row_binders_cases :
    (k : Kind) (i : ℕ) → (row_binders_in_child k i ≡ 0) ⊎ (row_binders_in_child k i ≡ 1)
unfolding row_binders_in_child
row_binders_cases row_lambda zero = inr refl
row_binders_cases k i = inl refl

pub relation_binders_cases :
    (k : Kind) (i : ℕ) → (relation_binders_in_child k i ≡ 0) ⊎ (relation_binders_in_child k i ≡ 1)
unfolding relation_binders_in_child
relation_binders_cases let_rel (suc zero) = inr refl
relation_binders_cases k i = inl refl
