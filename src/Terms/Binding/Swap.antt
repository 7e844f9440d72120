-- ===== src/Terms/Binding/Swap.antt =====
-- `swap_row_vars` of src/parseval/terms/binding.py exchanges two rows, and undoes itself.
use par_seval.Common.{
  ℕ, zero, suc, ◌+◌, ◌≡◌, ◌≢◌, refl, sym, ap, ap₂, ◌∙◌, fun_ext, ◌⊎◌, inl, inr, arith, ◌∷◌,
}
use mathlib.Core.Path.{subst}
use par_seval.Terms.Binding.{
  Kind, Term, row_var, rel_var, node, Terms, no_terms, terms, row_binders_in_child,
  relation_binders_in_child, swapped, swap_row_vars, swap_children,
}
use par_seval.Terms.Binding.Indices.{Semantics, push, denote, denote_children, row_binders_cases}

swapped_twice : (l n : ℕ) → swapped l (swapped l n) ≡ n
unfolding swapped
swapped_twice l n = ground arith

swapped-suc : (l n : ℕ) → swapped (suc l) (suc n) ≡ suc (swapped l n)
unfolding swapped
swapped-suc l n = ground arith

swapped-zero : (l : ℕ) → swapped (suc l) 0 ≡ 0
unfolding swapped
swapped-zero l = ground arith

swapped_cases :
    (l n : ℕ)
    → ((n ≡ l) × (swapped l n ≡ suc l))
      ⊎ (((n ≡ suc l) × (swapped l n ≡ l)) ⊎ ((n ≢ l) × (n ≢ suc l) × (swapped l n ≡ n)))
unfolding swapped
swapped_cases l n = ground arith

mutual
  unfolding swap_row_vars

  swap_term : (l : ℕ) (t : Term) → swap_row_vars l (swap_row_vars l t) ≡ t
  swap_term l (row_var d k) = ap (λ n. row_var n k) (swapped_twice l d)
  swap_term l (rel_var d) = refl
  swap_term l (node k j ts) = ap (node k j) (swap_terms l k 0 ts)

  swap_terms :
      (l : ℕ) (k : Kind) (i : ℕ) (ts : Terms) → swap_children l k i (swap_children l k i ts) ≡ ts
  swap_terms l k i no_terms = refl
  swap_terms l k i (terms t ts) =
      ap₂ terms (swap_term (l + row_binders_in_child k i) t) (swap_terms l k (suc i) ts)

-- Swapping twice gives the term back.
pub swap_row_vars_twice : (l : ℕ) (t : Term) → swap_row_vars l (swap_row_vars l t) ≡ t
swap_row_vars_twice = swap_term

module _ (s : Semantics) where
  -- The second assignment has the rows of the first at two adjacent depths in the other order, and the
  -- same rows elsewhere.
  abbrev pub Exchanges : ℕ → (ℕ → s.Row) → (ℕ → s.Row) → Type 0
  Exchanges l before after =
      (after l ≡ before (suc l))
      × (after (suc l) ≡ before l)
      × ((n : ℕ) → n ≢ l → n ≢ suc l → after n ≡ before n)

  abbrev Tracks : ℕ → (ℕ → s.Row) → (ℕ → s.Row) → Type 0
  Tracks l before after = (n : ℕ) → after (swapped l n) ≡ before n

  Exchanges-Tracks :
      (l : ℕ) (before after : ℕ → s.Row) → Exchanges l before after → Tracks l before after
  Exchanges-Tracks l before after (low, high, rest) n = elim (swapped_cases l n) [
    | inl (e, u) ↦ ap after u ∙ high ∙ ap before (sym e)
    | inr (inl (e, u)) ↦ ap after u ∙ low ∙ ap before (sym e)
    | inr (inr (e, f, u)) ↦ ap after u ∙ rest n e f
  ]

  push-Tracks :
      (l k : ℕ) (x : s.Row) (before after : ℕ → s.Row)
      → (k ≡ 0) ⊎ (k ≡ 1)
      → Tracks l before after
      → Tracks (l + k) (push k x before) (push k x after)
  push-Tracks l k x before after (inl e) f =
      subst (λ k. Tracks (l + k) (push k x before) (push k x after)) (sym e)
        (subst (λ c. Tracks c before after) (omega arith) f)
  push-Tracks l k x before after (inr e) f =
      subst (λ k. Tracks (l + k) (push k x before) (push k x after)) (sym e)
        (subst (λ c. Tracks c (push 1 x before) (push 1 x after)) (omega arith) under)
    where
      under : Tracks (suc l) (push 1 x before) (push 1 x after)
      under zero = ap (push 1 x after) (swapped-zero l)
      under (suc n) = ap (push 1 x after) (swapped-suc l n) ∙ f n

  mutual
    unfolding swap_row_vars denote

    exchanged_term :
        (l : ℕ) (t : Term) (rows rows' : ℕ → s.Row) (rels : ℕ → s.Meaning)
        → Tracks l rows rows'
        → denote s rows' rels (swap_row_vars l t) ≡ denote s rows rels t
    exchanged_term l (row_var d k) rows rows' rels f = ap s.of_row (f d)
    exchanged_term l (rel_var d) rows rows' rels f = refl
    exchanged_term l (node k j ts) rows rows' rels f =
        ap (s.interpret k j) (exchanged_terms l k 0 ts rows rows' rels f)

    exchanged_terms :
        (l : ℕ) (k : Kind) (i : ℕ) (ts : Terms) (rows rows' : ℕ → s.Row) (rels : ℕ → s.Meaning)
        → Tracks l rows rows'
        → denote_children s rows' rels k i (swap_children l k i ts)
          ≡ denote_children s rows rels k i ts
    exchanged_terms l k i no_terms rows rows' rels f = refl
    exchanged_terms l k i (terms t ts) rows rows' rels f =
        ap₂ ◌∷◌
          (fun_ext (λ r. fun_ext (λ m.
            exchanged_term (l + row_binders_in_child k i) t (push (row_binders_in_child k i) r rows)
              (push (row_binders_in_child k i) r rows')
              (push (relation_binders_in_child k i) m rels)
              (push-Tracks l (row_binders_in_child k i) r rows rows' (row_binders_cases k i) f))))
          (exchanged_terms l k (suc i) ts rows rows' rels f)

  -- A swapped term means under an assignment with two adjacent rows exchanged what the term means
  -- under the original one.
  pub denote-swap_row_vars :
      (l : ℕ) (t : Term) (rows rows' : ℕ → s.Row) (rels : ℕ → s.Meaning)
      → Exchanges l rows rows'
      → denote s rows' rels (swap_row_vars l t) ≡ denote s rows rels t
  denote-swap_row_vars l t rows rows' rels f =
      exchanged_term l t rows rows' rels (Exchanges-Tracks l rows rows' f)
