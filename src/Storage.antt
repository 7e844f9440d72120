-- ===== src/Storage.antt =====
-- The storage limits of columns in src/parseval/instance/domain.py: `limit`, `fits`, `capacity`.
use par_seval.Common.{
  ℕ, zero, suc, ◌+◌, ◌-◌, ◌^◌, ◌*◌, ◌<◌, ◌≡◌, Bool, true, Option, none, some, List, [], ◌∷◌,
  if◌then◌else◌, leb, ltb, arith,
}
use mathlib.Core.Path.{subst, sym}
use mathlib.Core.Option.{some-injective}
use par_seval.Common.Int.{pos, negsuc}
use par_seval.Scalar.Term.{Value, bool, int, text}

pub data TypeKind : Type 0 where
  boolean integer float decimal string date time timestamp interval opaque : TypeKind

-- The fields of a storage type that limit its values.
pub record StorageType : Type 0 where
  pub kind : TypeKind
  pub max_length : Option ℕ
  pub integer_bits : Option ℕ
  pub precision : Option ℕ
  pub scale : Option ℕ

-- The tuple of `limit`; a decimal bound that is below 1 in the source is 1 here, and admits the same
-- integers.
pub data Limit : Type 0 where
  length_limit integer_limit decimal_limit : ℕ → Limit

-- `storage.scale or 0`
unfoldable pub scale_of : Option ℕ → ℕ
scale_of none = 0
scale_of (some s) = s

unfoldable pub decimal_limit_of : TypeKind → Option ℕ → Option ℕ → Option Limit
unfolding scale_of
decimal_limit_of decimal (some p) s = some (decimal_limit (10 ^ (p - scale_of s)))
decimal_limit_of k p s = none

-- `limit`
unfoldable pub limit : StorageType → Option Limit
unfolding decimal_limit_of
limit t = elim t.max_length [
  | some n ↦ some (length_limit n)
  | none ↦ elim t.integer_bits [
    | some b ↦ some (integer_limit (2 ^ (b - 1)))
    | none ↦ decimal_limit_of t.kind t.precision t.scale
  ]
]

unfoldable pub size : List ℕ → ℕ
size [] = 0
size (c ∷ cs) = suc (size cs)

unfoldable pub within : Limit → Value → Bool
unfolding size
within l (bool b) = true
within (length_limit n) (text cs) = leb (size cs) n
within (length_limit n) (int v) = true
within (integer_limit n) (int (pos v)) = ltb v n
within (integer_limit n) (int (negsuc v)) = leb (suc v) n
within (decimal_limit n) (int (pos v)) = ltb v n
within (decimal_limit n) (int (negsuc v)) = ltb (suc v) n
within l (text cs) = true

-- `fits`
unfoldable pub fits : Option Value → StorageType → Bool
unfolding limit within
fits none t = true
fits (some v) t = elim (limit t) [ none ↦ true | some l ↦ within l v ]

-- `sum(26**length for length in range(1, n + 1))`
unfoldable pub texts_up_to : ℕ → ℕ
texts_up_to zero = 0
texts_up_to (suc n) = texts_up_to n + 26 ^ suc n

unfoldable pub decimals : ℕ → ℕ → ℕ
decimals p s = 10 ^ (if ltb s p then p - s else s) - 1

unfoldable pub capacity_of : TypeKind → Option ℕ → Option ℕ → Option ℕ → Option ℕ → Option ℕ
unfolding texts_up_to decimals scale_of
capacity_of boolean n b p s = some 2
capacity_of time n b p s = some (24 * 60)
capacity_of string (some n) b p s = some (texts_up_to n)
capacity_of integer n (some b) p s = some (2 ^ (b - 1) - 1)
capacity_of decimal n b (some p) s = some (decimals p (scale_of s))
capacity_of k n b p s = none

-- `capacity`
unfoldable pub capacity : StorageType → Option ℕ
unfolding capacity_of
capacity t = capacity_of t.kind t.max_length t.integer_bits t.precision t.scale

-- `_nth` of INTEGER.
unfoldable pub nth_integer : ℕ → Value
nth_integer index = int (pos (index + 1))

below-within : (n i : ℕ) → i < n - 1 → within (integer_limit n) (nth_integer i) ≡ true
unfolding within nth_integer
below-within n i h = ground arith

-- Every value that `_nth` gives for an INTEGER column of some width, at an index below the capacity,
-- fits the column.
pub nth_integer-fits :
    (b i c : ℕ)
    → capacity (record {
      kind = integer;
      max_length = none;
      integer_bits = some b;
      precision = none;
      scale = none;
    })
      ≡ some c
    → i < c
    → fits (some (nth_integer i)) (record {
      kind = integer;
      max_length = none;
      integer_bits = some b;
      precision = none;
      scale = none;
    })
      ≡ true
unfolding capacity fits
nth_integer-fits b i c h k =
    below-within (2 ^ (b - 1)) i (subst (λ n. i < n) (sym (some-injective _ _ h)) k)
