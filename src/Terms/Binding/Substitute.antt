-- ===== src/Terms/Binding/Substitute.antt =====
-- `substitute_row` of src/parseval/terms/binding.py, the beta reduction of row binders.
use par_seval.Common.{
  ℕ, zero, suc, ◌+◌, ◌-◌, ◌<◌, ◌≤◌, ◌≡◌, refl, sym, ap, ap₂, ◌∙◌, fun_ext, Bool-cases, ◌⊎◌, inl,
  inr, arith, Option, none, some, ◌∷◌, if◌then◌else◌, ◌==◌, ltb,
}
use mathlib.Core.Path.{subst}
use mathlib.Core.Option.{some-injective}
use par_seval.Common.Int.{pos, ◌+ℤ◌}
use par_seval.Common.Options.{>>=-eq-some}
use par_seval.Terms.Binding.{
  Kind, Term, row_var, rel_var, node, Terms, no_terms, terms, row_binders_in_child,
  relation_binders_in_child, landed, moved, shift_depth, shift_vars, Fate, replaced, renumbered,
  fate, substitute_row, substitute_children,
}
use par_seval.Terms.Binding.Indices.{
  Semantics, push, denote, denote_children, Tracks, row_binders_cases, relation_binders_cases,
}
use par_seval.Terms.Binding.Shift.{shifted_term}

-- The first assignment is the second with the row `x` inserted at depth `target`.
abbrev pub Inserts {ℓ} : {A : Type ℓ} → ℕ → A → (ℕ → A) → (ℕ → A) → Type ℓ
Inserts target x before after =
    ((n : ℕ) → n < target → before n ≡ after n)
    × (before target ≡ x)
    × ((n : ℕ) → target ≤ n → before (suc n) ≡ after n)

-- The assignments agree on every variable, after its fate.
abbrev Removes {ℓ} : {A : Type ℓ} → ℕ → A → (ℕ → A) → (ℕ → A) → Type ℓ
Removes target x before after =
    (n : ℕ)
    → (fate target n ≡ replaced → before n ≡ x)
      × ((m : ℕ) → fate target n ≡ renumbered m → after m ≡ before n)

fate-replaced : (t n : ℕ) → fate t n ≡ replaced → n ≡ t
unfolding fate
fate-replaced t n h = ground arith

fate-renumbered :
    (t n m : ℕ) → fate t n ≡ renumbered m → ((n < t) × (m ≡ n)) ⊎ ((t ≤ m) × (n ≡ suc m))
unfolding fate
fate-renumbered t n m h = ground arith

Inserts-Removes {ℓ} :
    {A : Type ℓ} (t : ℕ) (x : A) (before after : ℕ → A)
    → Inserts t x before after
    → Removes t x before after
Inserts-Removes t x before after (below, here, above) n = (
  λ h. ap before (fate-replaced t n h) ∙ here,
  λ m h. elim (fate-renumbered t n m h) [
    | inl (l, e) ↦ ap after e ∙ sym (below n l)
    | inr (l, e) ↦ sym (above m l) ∙ ap before (sym e)
  ],
)

fate-zero : (t m : ℕ) → fate (suc t) 0 ≡ renumbered m → m ≡ 0
unfolding fate
fate-zero t m h = ground arith

fate-zero-kept : (t : ℕ) → fate (suc t) 0 ≡ replaced → ⊥
unfolding fate
fate-zero-kept t h = ground arith

fate-suc-replaced : (t n : ℕ) → fate (suc t) (suc n) ≡ replaced → fate t n ≡ replaced
unfolding fate
fate-suc-replaced t n h = ground arith

fate-suc :
    (t n m : ℕ)
    → fate (suc t) (suc n) ≡ renumbered m
    → (k : ℕ) × (m ≡ suc k) × (fate t n ≡ renumbered k)
unfolding fate
fate-suc t n m h = elim (Bool-cases (ltb t n)) [
  | inl e ↦ (n - 1, ground arith, ground arith)
  | inr e ↦ (n, ground arith, ground arith)
]

lifted :
    (b n m : ℕ)
    → shift_depth (pos (suc b)) 0 n ≡ some m
    → (j : ℕ) × (m ≡ suc j) × (shift_depth (pos b) 0 n ≡ some j)
unfolding shift_depth moved landed ◌+ℤ◌
lifted b n m h = (n + b, ground arith, ground arith)

module _ {ℓ} {A : Type ℓ} where
  push-Removes :
      (t k : ℕ) (x y : A) (before after : ℕ → A)
      → (k ≡ 0) ⊎ (k ≡ 1)
      → Removes t x before after
      → Removes (t + k) x (push k y before) (push k y after)
  push-Removes t k x y before after (inl e) f =
      subst (λ k. Removes (t + k) x (push k y before) (push k y after)) (sym e)
        (subst (λ c. Removes c x before after) (omega arith) f)
  push-Removes t k x y before after (inr e) f =
      subst (λ k. Removes (t + k) x (push k y before) (push k y after)) (sym e)
        (subst (λ c. Removes c x (push 1 y before) (push 1 y after)) (omega arith) under)
    where
      under : Removes (suc t) x (push 1 y before) (push 1 y after)
      under zero = (λ h. absurd (fate-zero-kept t h), λ m h. ap (push 1 y after) (fate-zero t m h))
      under (suc n) = (
        λ h. (f n).0 (fate-suc-replaced t n h),
        λ m h. let (j, e, g) = fate-suc t n m h in ap (push 1 y after) e ∙ (f n).1 j g,
      )

  under_Tracks :
      (b k : ℕ) (y : A) (base after : ℕ → A)
      → (k ≡ 0) ⊎ (k ≡ 1)
      → Tracks (pos b) 0 base after
      → Tracks (pos (b + k)) 0 base (push k y after)
  under_Tracks b k y base after (inl e) f =
      subst (λ k. Tracks (pos (b + k)) 0 base (push k y after)) (sym e)
        (subst (λ c. Tracks (pos c) 0 base after) (omega arith) f)
  under_Tracks b k y base after (inr e) f =
      subst (λ k. Tracks (pos (b + k)) 0 base (push k y after)) (sym e)
        (subst (λ c. Tracks (pos c) 0 base (push 1 y after)) (omega arith) under)
    where
      under : Tracks (pos (suc b)) 0 base (push 1 y after)
      under n m h = let (j, e, g) = lifted b n m h in ap (push 1 y after) e ∙ f n j g

module _ (s : Semantics) (replacement : Term) (sort depth : ℕ) (base : ℕ → s.Row)
    (relations : ℕ → s.Meaning) (x : s.Row)
    (means : denote s base relations replacement ≡ s.of_row x) where
  mutual
    unfolding substitute_row denote

    substituted_term :
        (b c : ℕ) (t t' : Term) (rows rows' : ℕ → s.Row) (rels : ℕ → s.Meaning)
        → Removes (depth + b) x rows rows'
        → Tracks (pos b) 0 base rows'
        → Tracks (pos c) 0 relations rels
        → substitute_row replacement sort depth b c t ≡ some t'
        → denote s rows' rels t' ≡ denote s rows rels t
    substituted_term b c (row_var d k) t' rows rows' rels f g r h =
        variable (fate (depth + b) d) refl h
      where
        variable :
            (q : Fate)
            → fate (depth + b) d ≡ q
            → (elim q as (λ _. Option Term) [
              | replaced ↦ if k == sort then shift_vars (pos b) (pos c) 0 0 replacement else none
              | renumbered e ↦ some (row_var e k)
            ])
              ≡ some t'
            → denote s rows' rels t' ≡ s.of_row (rows d)
        variable (renumbered e) q i =
            ap (denote s rows' rels) (sym (some-injective _ _ i)) ∙ ap s.of_row ((f d).1 e q)
        variable replaced q i = elim (Bool-cases (k == sort)) [
          | inl e ↦
              shifted_term s (pos b) (pos c) 0 0 replacement t' base rows' relations rels g r
                (rw e at i)
              ∙ means
              ∙ ap s.of_row (sym ((f d).0 q))
          | inr e ↦ cc (rw e at i)
        ]
    substituted_term b c (rel_var d) t' rows rows' rels f g r h =
        ap (denote s rows' rels) (sym (some-injective _ _ h))
    substituted_term b c (node k l ts) t' rows rows' rels f g r h =
        let (us, hu, h1) =
          >>=-eq-some (substitute_children replacement sort depth b c k 0 ts) _ h in
        ap (denote s rows' rels) (sym (some-injective _ _ h1))
        ∙ ap (s.interpret k l) (substituted_terms b c k 0 ts us rows rows' rels f g r hu)

    substituted_terms :
        (b c : ℕ) (k : Kind) (i : ℕ) (ts us : Terms) (rows rows' : ℕ → s.Row) (rels : ℕ → s.Meaning)
        → Removes (depth + b) x rows rows'
        → Tracks (pos b) 0 base rows'
        → Tracks (pos c) 0 relations rels
        → substitute_children replacement sort depth b c k i ts ≡ some us
        → denote_children s rows' rels k i us ≡ denote_children s rows rels k i ts
    substituted_terms b c k i no_terms us rows rows' rels f g r h =
        ap (denote_children s rows' rels k i) (sym (some-injective _ _ h))
    substituted_terms b c k i (terms t ts) us rows rows' rels f g r h =
        let (u, hu, h1) =
          >>=-eq-some
            (substitute_row replacement sort depth (b + row_binders_in_child k i)
              (c + relation_binders_in_child k i) t)
            _ h in
        let (vs, hv, h2) =
          >>=-eq-some (substitute_children replacement sort depth b c k (suc i) ts) _ h1 in
        ap (denote_children s rows' rels k i) (sym (some-injective _ _ h2))
        ∙ ap₂ ◌∷◌
            (fun_ext (λ y. fun_ext (λ m.
              substituted_term (b + row_binders_in_child k i) (c + relation_binders_in_child k i) t
                u (push (row_binders_in_child k i) y rows) (push (row_binders_in_child k i) y rows')
                (push (relation_binders_in_child k i) m rels)
                (subst
                  (λ n.
                    Removes n x (push (row_binders_in_child k i) y rows)
                      (push (row_binders_in_child k i) y rows'))
                  (omega arith)
                  (push-Removes (depth + b) (row_binders_in_child k i) x y rows rows'
                    (row_binders_cases k i) f))
                (under_Tracks b (row_binders_in_child k i) y base rows' (row_binders_cases k i) g)
                (under_Tracks c (relation_binders_in_child k i) m relations rels
                  (relation_binders_cases k i) r)
                hu)))
            (substituted_terms b c k (suc i) ts vs rows rows' rels f g r hv)

unshifted : (n m : ℕ) → shift_depth (pos 0) 0 n ≡ some m → m ≡ n
unfolding shift_depth moved landed ◌+ℤ◌
unshifted n m h = ground arith

-- When the substitution succeeds and the replacement means a row, the result means under an
-- assignment what the term means under the assignment with that row inserted at the depth.
pub denote-substitute_row :
    (s : Semantics) (replacement : Term) (sort depth : ℕ) (x : s.Row) (t t' : Term)
    (before after : ℕ → s.Row) (relations : ℕ → s.Meaning)
    → denote s after relations replacement ≡ s.of_row x
    → Inserts depth x before after
    → substitute_row replacement sort depth 0 0 t ≡ some t'
    → denote s after relations t' ≡ denote s before relations t
denote-substitute_row s replacement sort depth x t t' before after relations means f h =
    substituted_term s replacement sort depth after relations x means 0 0 t t' before after
      relations
      (subst (λ n. Removes n x before after) (omega arith) (Inserts-Removes depth x before after f))
      (λ n m e. ap after (unshifted n m e)) (λ n m e. ap relations (unshifted n m e)) h
