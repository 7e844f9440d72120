-- ===== src/Smt/Valuation/Sums.antt =====
-- Multiplicities in src/parseval/instance/valuation.py: `add`, `case`, `indicator`, `is_binary`,
-- `minimum` and `maximum`.
pub mod Laws
use par_seval.Common.{
  ℕ, zero, suc, Bool, true, false, ◌&&◌, Option, none, some, List, [], ◌∷◌, length, if◌then◌else◌,
}
use par_seval.Common.Int.{pos, negsuc}
use par_seval.Scalar.Term.{
  bool, int, text, add, Predicate, true3, false3, unknown3, lt3, Scalar, literal, null, parameter,
  case, call, to_boolean, no_scalars, scalars,
}
use par_seval.Smt.Valuation.{Valuation, fold_predicate, fold_scalar}

-- `self.zero` and `self.one`
abbrev pub zero_term : Scalar
zero_term = literal (int (pos 0))

abbrev pub one_term : Scalar
one_term = literal (int (pos 1))

unfoldable pub is_zero_term : Scalar → Bool
is_zero_term (literal (int (pos zero))) = true
is_zero_term t = false

unfoldable pub drop_zeros : List Scalar → List Scalar
unfolding is_zero_term
drop_zeros [] = []
drop_zeros (t ∷ ts) = let rest = drop_zeros ts in if is_zero_term t then rest else t ∷ rest

module _ (v : Valuation) where
  -- `self.apply("add", …)`
  unfoldable pub add_two : Scalar → Scalar → Scalar
  unfolding fold_scalar
  add_two a b = fold_scalar v (call add (scalars a (scalars b no_scalars)))

  -- `items[index : index + 2]` for every second index.
  unfoldable pub pair_up : List Scalar → List Scalar
  unfolding add_two
  pair_up [] = []
  pair_up (a ∷ []) = a ∷ []
  pair_up (a ∷ b ∷ ts) = add_two a b ∷ pair_up ts

  -- The loop of `add`, whose rounds are bounded; none when they are not enough.
  unfoldable pub balanced : ℕ → List Scalar → Option Scalar
  unfolding pair_up
  balanced n [] = some zero_term
  balanced n (t ∷ []) = some t
  balanced zero (a ∷ b ∷ ts) = none
  balanced (suc n) (a ∷ b ∷ ts) = balanced n (pair_up (a ∷ b ∷ ts))

  -- `add`
  unfoldable pub sum_of : List Scalar → Option Scalar
  unfolding balanced drop_zeros
  sum_of ts = balanced (length ts) (drop_zeros ts)

  -- `case`, which decides a constant condition.
  unfoldable pub case_of : Predicate → Scalar → Scalar → Scalar
  unfolding fold_scalar
  case_of true3 t e = t
  case_of false3 t e = e
  case_of unknown3 t e = e
  case_of c t e = fold_scalar v (case c t e)

  -- `indicator`
  unfoldable pub indicator : Predicate → Scalar
  unfolding case_of
  indicator p = case_of p one_term zero_term

  -- `minimum` and `maximum`
  unfoldable pub minimum : Scalar → Scalar → Scalar
  unfolding case_of fold_predicate
  minimum a b = case_of (fold_predicate v (lt3 a b)) a b

  unfoldable pub maximum : Scalar → Scalar → Scalar
  unfolding case_of fold_predicate
  maximum a b = case_of (fold_predicate v (lt3 a b)) b a

  -- `is_binary`; in Python a Boolean is 0 or 1 as well.
  unfoldable pub is_binary_term : Scalar → Bool
  is_binary_term (case c t e) = is_binary_term t && is_binary_term e
  is_binary_term (literal (int (pos zero))) = true
  is_binary_term (literal (int (pos (suc zero)))) = true
  is_binary_term (literal (bool b)) = true
  is_binary_term (parameter x) = v.is_binary x
  is_binary_term t = false
