-- ===== src/Ordering/Stable.antt =====
-- `order` of src/parseval/instance/ordering.py is a stable sort of the positions.
use par_seval.Common.{
  ℕ, suc, ◌<◌, ◌≡◌, refl, sym, ap, ◌∙◌, true, false, Bool-cases, inl, inr, arith, List, [], ◌∷◌,
  map,
}
use mathlib.Core.Path.{subst}
use mathlib.Core.List.{Perm}
use mathlib.Core.List.Perm
use par_seval.Ordering.{
  OrderKeySpec, Comparison, smaller, same, larger, reversed, Key, and_then, compare_keys, is_larger,
  Row, numbered, insert, sorted, order,
}
use par_seval.Ordering.Preorder.{IsAtMost, compare_keys-reversed, compare_keys-and_then}

module _ (ss : List OrderKeySpec) where
  -- A row may stand ahead of another: its key is not after the other's, and is only the same when it
  -- was ahead before.
  pub record Precedes (r q : Row ss) : Type 0 where
    pub at_most : IsAtMost (compare_keys ss r.1 q.1)
    pub earlier : compare_keys ss r.1 q.1 ≡ same → r.0 < q.0

  unfoldable pub PrecedesAll : Row ss → List (Row ss) → Type 0
  PrecedesAll r [] = Unit
  PrecedesAll r (q ∷ qs) = Precedes r q × PrecedesAll r qs

  -- Every row precedes all that come after it.
  unfoldable pub IsStable : List (Row ss) → Type 0
  unfolding PrecedesAll
  IsStable [] = Unit
  IsStable (r ∷ rs) = PrecedesAll r rs × IsStable rs

  unfoldable IsAhead : ℕ → List (Row ss) → Type 0
  IsAhead n [] = Unit
  IsAhead n (q ∷ qs) = (n < q.0) × IsAhead n qs

  IsAhead-insert :
      (n : ℕ) (r : Row ss) (qs : List (Row ss))
      → n < r.0
      → IsAhead n qs
      → IsAhead n (insert ss r qs)
  unfolding insert IsAhead
  IsAhead-insert n r [] h a = (h, tt)
  IsAhead-insert n r (q ∷ qs) h a = elim (Bool-cases (is_larger (compare_keys ss r.1 q.1))) [
    | inl e ↦ rw e (a.0, IsAhead-insert n r qs h a.1)
    | inr e ↦ rw e (h, a)
  ]

  IsAhead-sorted : (n : ℕ) (rs : List (Row ss)) → IsAhead n rs → IsAhead n (sorted ss rs)
  unfolding sorted IsAhead
  IsAhead-sorted n [] a = tt
  IsAhead-sorted n (r ∷ rs) a = IsAhead-insert n r (sorted ss rs) a.0 (IsAhead-sorted n rs a.1)

  IsAhead-numbered : (n m : ℕ) (ks : List (Key ss)) → n < m → IsAhead n (numbered ss m ks)
  unfolding numbered IsAhead
  IsAhead-numbered n m [] h = tt
  IsAhead-numbered n m (k ∷ ks) h = (h, IsAhead-numbered n (suc m) ks (omega arith))

  pub joined : (x y : Comparison) → IsAtMost x → IsAtMost y → IsAtMost (and_then x y)
  unfolding IsAtMost and_then
  joined smaller y h g = tt
  joined same y h g = g
  joined larger y h g = absurd h

  -- A row that may stand ahead of `q`, and was ahead of all, may stand ahead of what follows `q`.
  Precedes-trans :
      (r q w : Row ss)
      → IsAtMost (compare_keys ss r.1 q.1)
      → Precedes q w
      → r.0 < w.0
      → Precedes r w
  Precedes-trans r q w h p l = record {
    at_most =
        subst IsAtMost (sym (compare_keys-and_then ss r.1 q.1 w.1 h p.at_most))
          (joined (compare_keys ss r.1 q.1) (compare_keys ss q.1 w.1) h p.at_most);
    earlier = λ e. l;
  }

  PrecedesAll-trans :
      (r q : Row ss) (ws : List (Row ss))
      → IsAtMost (compare_keys ss r.1 q.1)
      → PrecedesAll q ws
      → IsAhead r.0 ws
      → PrecedesAll r ws
  unfolding PrecedesAll IsAhead
  PrecedesAll-trans r q [] h p a = tt
  PrecedesAll-trans r q (w ∷ ws) h p a =
      (Precedes-trans r q w h p.0 a.0, PrecedesAll-trans r q ws h p.1 a.1)

  not_larger : (x : Comparison) → is_larger x ≡ false → IsAtMost x
  unfolding IsAtMost
  not_larger smaller e = tt
  not_larger same e = tt
  not_larger larger e = cc

  larger-smaller : (x : Comparison) → is_larger x ≡ true → reversed x ≡ smaller
  unfolding reversed
  larger-smaller larger e = refl
  larger-smaller smaller e = cc
  larger-smaller same e = cc

  smaller-Precedes : (r q : Row ss) → compare_keys ss r.1 q.1 ≡ smaller → Precedes r q
  smaller-Precedes r q e = record {
    at_most = subst IsAtMost (sym e) (unfold IsAtMost in tt);
    earlier = λ f. cc;
  }

  PrecedesAll-insert :
      (p r : Row ss) (qs : List (Row ss))
      → Precedes p r
      → PrecedesAll p qs
      → PrecedesAll p (insert ss r qs)
  unfolding insert PrecedesAll
  PrecedesAll-insert p r [] h a = (h, tt)
  PrecedesAll-insert p r (q ∷ qs) h a = elim (Bool-cases (is_larger (compare_keys ss r.1 q.1))) [
    | inl e ↦ rw e (a.0, PrecedesAll-insert p r qs h a.1)
    | inr e ↦ rw e (h, a)
  ]

  insert-IsStable :
      (r : Row ss) (qs : List (Row ss)) → IsAhead r.0 qs → IsStable qs → IsStable (insert ss r qs)
  unfolding insert IsStable IsAhead
  insert-IsStable r [] a h = (tt, tt)
  insert-IsStable r (q ∷ qs) a h = elim (Bool-cases (is_larger (compare_keys ss r.1 q.1))) [
    | inl e ↦ rw e (
      PrecedesAll-insert q r qs
          (smaller-Precedes q r
            (compare_keys-reversed ss r.1 q.1 ∙ larger-smaller (compare_keys ss r.1 q.1) e))
          h.0,
      insert-IsStable r qs a.1 h.1,
    )
    | inr e ↦
        let m = not_larger (compare_keys ss r.1 q.1) e in
        rw e ((record { at_most = m; earlier = λ f. a.0 }, PrecedesAll-trans r q qs m h.0 a.1), h)
  ]

  -- Sorting rows numbered in sequence.
  pub sorted-IsStable : (n : ℕ) (ks : List (Key ss)) → IsStable (sorted ss (numbered ss n ks))
  unfolding sorted numbered IsStable
  sorted-IsStable n [] = tt
  sorted-IsStable n (k ∷ ks) =
      insert-IsStable (n, k) (sorted ss (numbered ss (suc n) ks))
        (IsAhead-sorted n (numbered ss (suc n) ks) (IsAhead-numbered n (suc n) ks (omega arith)))
        (sorted-IsStable (suc n) ks)

  insert-perm : (r : Row ss) (qs : List (Row ss)) → Perm (insert ss r qs) (r ∷ qs)
  unfolding insert
  insert-perm r [] = Perm.refl (r ∷ [])
  insert-perm r (q ∷ qs) = elim (Bool-cases (is_larger (compare_keys ss r.1 q.1))) [
    | inl e ↦ rw e (Perm.trans (Perm.cons q (insert-perm r qs)) (Perm.swap r q qs))
    | inr e ↦ rw e (Perm.refl (r ∷ q ∷ qs))
  ]

  sorted-perm : (rs : List (Row ss)) → Perm (sorted ss rs) rs
  unfolding sorted
  sorted-perm [] = Perm.refl []
  sorted-perm (r ∷ rs) = Perm.trans (insert-perm r (sorted ss rs)) (Perm.cons r (sorted-perm rs))

-- The positions from `n` on, one for each key.
unfoldable pub positions {ℓ} : {A : Type ℓ} → ℕ → List A → List ℕ
positions n [] = []
positions n (x ∷ xs) = n ∷ positions (suc n) xs

numbered-positions :
    (ss : List OrderKeySpec) (n : ℕ) (ks : List (Key ss))
    → map (λ r. r.0) (numbered ss n ks) ≡ positions n ks
unfolding numbered positions
numbered-positions ss n [] = refl
numbered-positions ss n (k ∷ ks) = ap (λ xs. n ∷ xs) (numbered-positions ss (suc n) ks)

-- The order of rows is a permutation of their positions in which every row precedes all that come
-- after it: its key is not after theirs, and where the keys compare the same its position is earlier.
pub order-IsStable :
    (ss : List OrderKeySpec) (ks : List (Key ss))
    → Perm (order ss ks) (positions 0 ks) × IsStable ss (sorted ss (numbered ss 0 ks))
unfolding order
order-IsStable ss ks = (
  subst (λ xs. Perm (order ss ks) xs) (numbered-positions ss 0 ks)
      (Perm.map (λ r. r.0) (sorted-perm ss (numbered ss 0 ks))),
  sorted-IsStable ss 0 ks,
)
