-- ===== src/Ordering.antt =====
-- src/parseval/instance/ordering.py: the order of rows and window functions.
pub mod Preorder
pub mod Stable
pub mod Peers
pub mod Ranks
pub mod Windows
use par_seval.Common.{
  ℕ, zero, suc, Bool, true, false, not, Option, none, some, List, [], ◌∷◌, map, if◌then◌else◌,
}
use par_seval.Scalar.Term.{Value}
use par_seval.Scalar.Order.{value_before}

pub data Direction : Type 0 where
  asc desc : Direction

pub data NullPlacement : Type 0 where
  first last : NullPlacement

pub record OrderKeySpec : Type 0 where
  pub direction : Direction
  pub nulls : NullPlacement

-- The results -1, 0 and 1.
pub data Comparison : Type 0 where
  smaller same larger : Comparison

unfoldable pub reversed : Comparison → Comparison
reversed smaller = larger
reversed same = same
reversed larger = smaller

-- `(left > right) - (left < right)`
unfoldable pub compare_present : Value → Value → Comparison
compare_present a b =
    if value_before a b then smaller else if value_before b a then larger else same

unfoldable pub directed : Direction → Comparison → Comparison
unfolding reversed
directed asc c = c
directed desc c = reversed c

-- NULL on the left.
unfoldable pub null_side : NullPlacement → Comparison
null_side first = smaller
null_side last = larger

-- `compare_values`
unfoldable pub compare_values : Option Value → Option Value → OrderKeySpec → Comparison
unfolding compare_present directed null_side reversed
compare_values none none s = same
compare_values none (some b) s = null_side s.nulls
compare_values (some a) none s = reversed (null_side s.nulls)
compare_values (some a) (some b) s = directed s.direction (compare_present a b)

-- The values of a row under the specs of an ORDER BY: as many, as `zip(…, strict=True)` asks.
unfoldable pub Key : List OrderKeySpec → Type 0
Key [] = Unit
Key (s ∷ ss) = Option Value × Key ss

-- The next specs decide when the first ones do not.
unfoldable pub and_then : Comparison → Comparison → Comparison
and_then same c = c
and_then smaller c = smaller
and_then larger c = larger

-- `compare_keys`
unfoldable pub compare_keys : (ss : List OrderKeySpec) → Key ss → Key ss → Comparison
unfolding Key compare_values and_then
compare_keys [] a b = same
compare_keys (s ∷ ss) a b = and_then (compare_values a.0 b.0 s) (compare_keys ss a.1 b.1)

abbrev pub is_larger : Comparison → Bool
is_larger larger = true
is_larger _ = false

-- A position with its key.
abbrev pub Row : List OrderKeySpec → Type 0
Row ss = ℕ × Key ss

module _ (ss : List OrderKeySpec) where
  unfoldable pub numbered : ℕ → List (Key ss) → List (Row ss)
  numbered n [] = []
  numbered n (k ∷ ks) = (n, k) ∷ numbered (suc n) ks

  -- `sorted`, which is stable: an item stays ahead of the later ones that compare equal.
  unfoldable pub insert : Row ss → List (Row ss) → List (Row ss)
  unfolding compare_keys
  insert r [] = r ∷ []
  insert r (q ∷ qs) =
      let rest = insert r qs in if is_larger (compare_keys ss r.1 q.1) then q ∷ rest else r ∷ q ∷ qs

  unfoldable pub sorted : List (Row ss) → List (Row ss)
  unfolding insert
  sorted [] = []
  sorted (r ∷ rs) = insert r (sorted rs)

  -- `order`
  unfoldable pub order : List (Key ss) → List ℕ
  unfolding sorted numbered
  order ks = map (λ r. r.0) (sorted (numbered 0 ks))
