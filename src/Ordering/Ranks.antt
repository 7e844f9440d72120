-- ===== src/Ordering/Ranks.antt =====
-- RANK of src/parseval/instance/ordering.py counts the rows with a smaller key.
use par_seval.Common.{
  ℕ, zero, suc, ◌+◌, ◌-◌, ◌<◌, ◌≤◌, ◌≡◌, refl, sym, ap, ap₂, fun_ext, ◌∙◌, not, Bool-cases, inl,
  inr, arith, Option, none, some, List, [], ◌∷◌, ◌++◌, map, length, length-append, get_or,
  if◌then◌else◌,
}
use mathlib.Core.Path.{subst}
use par_seval.Ordering.{
  OrderKeySpec, Comparison, smaller, same, larger, reversed, Key, and_then, compare_keys, Row,
  numbered, sorted,
}
use par_seval.Ordering.Preorder.{IsAtMost, compare_keys-reversed, compare_keys-and_then}
use par_seval.Ordering.Stable.{PrecedesAll, IsStable, sorted-IsStable, joined}
use par_seval.Ordering.Peers.{is_same, is_new, starts_with, group_peers, peers_of, rank_values}

abbrev one_if_smaller : Comparison → ℕ
one_if_smaller smaller = 1
one_if_smaller same = 0
one_if_smaller larger = 0

module _ (ss : List OrderKeySpec) where
  -- How many keys are smaller than `k`.
  unfoldable pub count_smaller : Key ss → List (Key ss) → ℕ
  unfolding compare_keys
  count_smaller k [] = 0
  count_smaller k (q ∷ qs) = one_if_smaller (compare_keys ss q k) + count_smaller k qs

  unfoldable pub IsAtMostAll : Key ss → List (Key ss) → Type 0
  unfolding IsAtMost
  IsAtMostAll k [] = Unit
  IsAtMostAll k (q ∷ qs) = IsAtMost (compare_keys ss k q) × IsAtMostAll k qs

  unfoldable pub IsAscending : List (Key ss) → Type 0
  unfolding IsAtMostAll
  IsAscending [] = Unit
  IsAscending (k ∷ ks) = IsAtMostAll k ks × IsAscending ks

  compare_refl : (k : Key ss) → compare_keys ss k k ≡ same
  compare_refl k = go (compare_keys ss k k) (compare_keys-reversed ss k k)
    where
      go : (c : Comparison) → c ≡ reversed c → c ≡ same
      go smaller e = unfold reversed in cc
      go same e = refl
      go larger e = unfold reversed in cc

  -- What is at most another is not larger than it.
  none_smaller : (x : Comparison) → IsAtMost x → one_if_smaller (reversed x) ≡ 0
  unfolding IsAtMost reversed
  none_smaller smaller h = refl
  none_smaller same h = refl
  none_smaller larger h = absurd h

  count_smaller-head : (k : Key ss) (ks : List (Key ss)) → IsAtMostAll k ks → count_smaller k ks ≡ 0
  unfolding count_smaller IsAtMostAll
  count_smaller-head k [] h = refl
  count_smaller-head k (q ∷ qs) h =
      rw (compare_keys-reversed ss k q, none_smaller (compare_keys ss k q) h.0)
        (rw (count_smaller-head k qs h.1) refl)

  -- What `c` counts of the rows before the position `n`, the last of which has the previous key.
  unfoldable Counts : Option (Key ss) → ℕ → ℕ → (Key ss → ℕ) → Type 0
  Counts none n start c = (q : Key ss) → c q ≡ n
  Counts (some p) n start c =
      (q : Key ss)
      → IsAtMost (compare_keys ss p q)
      → c q ≡ (if is_same (compare_keys ss p q) then start else n)

  counted :
      (x y z : Comparison) (start n : ℕ)
      → IsAtMost x
      → IsAtMost y
      → z ≡ and_then x y
      → (if is_same z then start else n) + one_if_smaller y
        ≡ (if is_same y then (if not (is_same x) then n else start) else suc n)
  unfolding IsAtMost and_then
  counted same same z start n h g e = rw e (omega arith)
  counted same smaller z start n h g e = rw e (omega arith)
  counted smaller same z start n h g e = rw e (omega arith)
  counted smaller smaller z start n h g e = rw e (omega arith)
  counted larger y z start n h g e = absurd h
  counted x larger z start n h g e = absurd g

  -- The start of the peers of a new row.
  unfoldable start_after : Option (Key ss) → Key ss → ℕ → ℕ → ℕ
  start_after previous k n start = if is_new ss previous k then n else start

  unfoldable IsNext : Option (Key ss) → Key ss → Type 0
  IsNext none k = Unit
  IsNext (some p) k = IsAtMost (compare_keys ss p k)

  Counts-next :
      (previous : Option (Key ss)) (k : Key ss) (n start : ℕ) (c : Key ss → ℕ)
      → Counts previous n start c
      → IsNext previous k
      → Counts
          (some k)
          (suc n)
          (start_after previous k n start)
          (λ q. c q + one_if_smaller (compare_keys ss k q))
  unfolding Counts IsNext start_after is_new
  Counts-next none k n start c h a q b = rw (h q) (only (compare_keys ss k q) b)
    where
      only : (y : Comparison) → IsAtMost y → n + one_if_smaller y ≡ (if is_same y then n else suc n)
      only smaller b = omega arith
      only same b = omega arith
      only larger b = unfold IsAtMost in absurd b
  Counts-next (some p) k n start c h a q b =
      let e = compare_keys-and_then ss p k q a b in
      let m : IsAtMost (compare_keys ss p q) =
        subst IsAtMost (sym e) (joined ss (compare_keys ss p k) (compare_keys ss k q) a b) in
      rw (h q m)
        (counted (compare_keys ss p k) (compare_keys ss k q) (compare_keys ss p q) start n a b e)

  -- The start of the last group.
  unfoldable IsLast : Option (Key ss) → List ℕ → ℕ → Type 0
  IsLast none starts start = Unit
  IsLast (some p) starts start = (1 ≤ length starts) × (get_or starts (length starts - 1) 0 ≡ start)

  get_or-append : (xs ys : List ℕ) (i : ℕ) → i < length xs → get_or (xs ++ ys) i 0 ≡ get_or xs i 0
  get_or-append [] ys i h = absurd (omega arith)
  get_or-append (x ∷ xs) ys zero h = refl
  get_or-append (x ∷ xs) ys (suc i) h = get_or-append xs ys i (omega arith)

  get_or-end : (xs : List ℕ) (n : ℕ) → get_or (xs ++ n ∷ []) (length xs) 0 ≡ n
  get_or-end [] n = refl
  get_or-end (x ∷ xs) n = get_or-end xs n

  appended :
      (starts : List ℕ) (n : ℕ)
      → (1 ≤ length (starts ++ n ∷ []))
        × (get_or (starts ++ n ∷ []) (length (starts ++ n ∷ []) - 1) 0 ≡ n)
  appended starts n =
      let l : length (starts ++ n ∷ []) ≡ suc (length starts) =
        omega (arith, length-append starts (n ∷ [])) in
      let i : length (starts ++ n ∷ []) - 1 ≡ length starts = omega arith in
      (omega arith, ap (λ j. get_or (starts ++ n ∷ []) j 0) i ∙ get_or-end starts n)

  IsLast-next :
      (previous : Option (Key ss)) (k : Key ss) (n start : ℕ) (starts : List ℕ)
      → IsLast previous starts start
      → IsLast (some k) (starts_with ss previous k n starts) (start_after previous k n start)
  unfolding IsLast starts_with start_after
  IsLast-next none k n start starts h = unfold is_new in appended starts n
  IsLast-next (some p) k n start starts h = elim (Bool-cases (is_new ss (some p) k)) [
    | inl e ↦ rw (starts_with, start_after, e) (appended starts n)
    | inr e ↦ rw (starts_with, start_after, e) h
  ]

  -- Later rows leave the starts of earlier groups alone.
  starts-kept :
      (previous : Option (Key ss)) (n : ℕ) (starts : List ℕ) (ks : List (Key ss)) (i : ℕ)
      → i < length starts
      → get_or (group_peers ss previous n starts ks).starts i 0 ≡ get_or starts i 0
  unfolding group_peers starts_with
  starts-kept previous n starts [] i h = refl
  starts-kept previous n starts (k ∷ ks) i h = elim (Bool-cases (is_new ss previous k)) [
    | inl e ↦ rw e (
        starts-kept (some k) (suc n) (starts ++ n ∷ []) ks i
          (let l = length-append starts (n ∷ []) in omega (arith, l))
        ∙ get_or-append starts (n ∷ []) i h)
    | inr e ↦ rw e (starts-kept (some k) (suc n) starts ks i h)
  ]

  unfoldable AllNext : Option (Key ss) → List (Key ss) → Type 0
  AllNext none ks = Unit
  AllNext (some p) ks = IsAtMostAll p ks

  AllNext-head :
      (previous : Option (Key ss)) (k : Key ss) (ks : List (Key ss))
      → AllNext previous (k ∷ ks)
      → IsNext previous k
  unfolding AllNext IsNext IsAtMostAll
  AllNext-head none k ks a = tt
  AllNext-head (some p) k ks a = a.0

  compare_keys_self : (k : Key ss) → IsAtMost (compare_keys ss k k)
  compare_keys_self k = subst IsAtMost (sym (compare_refl k)) (unfold IsAtMost in tt)

  head_count :
      (previous : Option (Key ss)) (k : Key ss) (n start : ℕ) (c : Key ss → ℕ) (ks : List (Key ss))
      → Counts previous n start c
      → IsNext previous k
      → IsAtMostAll k ks
      → start_after previous k n start ≡ c k + count_smaller k (k ∷ ks)
  unfolding count_smaller Counts
  head_count previous k n start c ks h a m =
      let e = Counts-next previous k n start c h a k (compare_keys_self k) in
      rw (compare_refl k, count_smaller-head k ks m) (omega (arith, rw (compare_refl k) at e))

  shifted :
      (c : Key ss → ℕ) (k : Key ss) (ks : List (Key ss))
      → map (λ q. c q + one_if_smaller (compare_keys ss k q) + count_smaller q ks + 1) ks
        ≡ map (λ q. c q + count_smaller q (k ∷ ks) + 1) ks
  unfolding count_smaller
  shifted c k ks = ap (λ f. map f ks) (fun_ext (λ q. omega arith))

  ranks-lem :
      (previous : Option (Key ss)) (n start : ℕ) (starts : List ℕ) (c : Key ss → ℕ)
      (ks : List (Key ss))
      → Counts previous n start c
      → IsLast previous starts start
      → AllNext previous ks
      → IsAscending ks
      → rank_values
          (group_peers ss previous n starts ks).starts
          (group_peers ss previous n starts ks).peer
        ≡ map (λ k. c k + count_smaller k ks + 1) ks
  unfolding group_peers rank_values IsAscending IsLast
  ranks-lem previous n start starts c [] h l a g = refl
  ranks-lem previous n start starts c (k ∷ ks) h l a g =
      let now = starts_with ss previous k n starts in
      let f = start_after previous k n start in
      let d = IsLast-next previous k n start starts l in
      let i =
        ranks-lem (some k) (suc n) f now (λ q. c q + one_if_smaller (compare_keys ss k q)) ks
          (Counts-next previous k n start c h (AllNext-head previous k ks a)) d
          (unfold AllNext in g.0) g.1 in
      ap₂ (λ x xs. x ∷ xs)
        (ap (λ x. x + 1)
          (starts-kept (some k) (suc n) now ks (length now - 1) (omega (arith, d.0))
            ∙ d.1
            ∙ head_count previous k n start c ks h (AllNext-head previous k ks a) g.0))
        (i ∙ shifted c k ks)

  -- The keys of stably sorted rows ascend.
  keys-AtMost :
      (r : Row ss) (rs : List (Row ss)) → PrecedesAll ss r rs → IsAtMostAll r.1 (map (λ q. q.1) rs)
  unfolding PrecedesAll IsAtMostAll
  keys-AtMost r [] h = tt
  keys-AtMost r (q ∷ qs) h = (h.0.at_most, keys-AtMost r qs h.1)

  keys-IsAscending : (rs : List (Row ss)) → IsStable ss rs → IsAscending (map (λ q. q.1) rs)
  unfolding IsStable IsAscending
  keys-IsAscending [] h = tt
  keys-IsAscending (r ∷ rs) h = (keys-AtMost r rs h.0, keys-IsAscending rs h.1)

  ranks-count :
      (ks : List (Key ss))
      → IsAscending ks
      → rank_values (peers_of ss ks).starts (peers_of ss ks).peer
        ≡ map (λ k. count_smaller k ks + 1) ks
  ranks-count ks h =
      ranks-lem none 0 0 [] (λ q. 0) ks (unfold Counts in λ q. refl) (unfold IsLast in tt)
        (unfold AllNext in tt) h
      ∙ ap (λ f. map f ks) (fun_ext (λ q. omega arith))

-- The keys of the rows of a partition in order.
abbrev pub ordered_keys : (ss : List OrderKeySpec) → List (Key ss) → List (Key ss)
ordered_keys ss ks = map (λ r. r.1) (sorted ss (numbered ss 0 ks))

-- The RANK of each ordered row is one more than the number of rows whose key is smaller than its own.
pub rank_values-count :
    (ss : List OrderKeySpec) (ks : List (Key ss))
    → rank_values (peers_of ss (ordered_keys ss ks)).starts (peers_of ss (ordered_keys ss ks)).peer
      ≡ map (λ k. count_smaller ss k (ordered_keys ss ks) + 1) (ordered_keys ss ks)
rank_values-count ss ks =
    ranks-count ss (ordered_keys ss ks)
      (keys-IsAscending ss (sorted ss (numbered ss 0 ks)) (sorted-IsStable ss 0 ks))
