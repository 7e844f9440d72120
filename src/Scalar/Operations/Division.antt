-- ===== src/Scalar/Operations/Division.antt =====
-- Integer division of src/parseval/symbolic/operations.py rounds toward zero.
use par_seval.Common.{ℕ, zero, suc, ◌+◌, ◌*◌, ◌/◌, ◌%◌, ◌≡◌, arith, if◌then◌else◌}
use native.Mathlib.Nat.{div-add-mod'}
use par_seval.Common.Int.{ℤ, pos, negsuc, ◌-ℤ◌, ◌*ℤ◌}
use par_seval.Scalar.Operations.{magnitude, is_negative, negative, truncate_division, remainder}

-- What is left of a dividend, from its quotient and remainder by magnitudes.
remainder_by_negative : (a q b m : ℕ) → q * suc b + m ≡ a → pos a -ℤ negative q *ℤ negsuc b ≡ pos m
unfolding ◌-ℤ◌ ◌*ℤ◌
remainder_by_negative a zero b m h = grind (arith, h)
remainder_by_negative a (suc q) b m h = grind (arith, h)

remainder_by_positive :
    (a q b m : ℕ) → q * b + m ≡ suc a → negsuc a -ℤ negative q *ℤ pos b ≡ negative m
unfolding ◌-ℤ◌ ◌*ℤ◌
remainder_by_positive a zero b zero h = grind (arith, h)
remainder_by_positive a zero b (suc m) h = grind (arith, h)
remainder_by_positive a (suc q) b zero h = grind (arith, h)
remainder_by_positive a (suc q) b (suc m) h = grind (arith, h)

remainder_of_negatives :
    (a q b m : ℕ) → q * suc b + m ≡ suc a → negsuc a -ℤ pos q *ℤ negsuc b ≡ negative m
unfolding ◌-ℤ◌ ◌*ℤ◌
remainder_of_negatives a q b zero h = grind (arith, h)
remainder_of_negatives a q b (suc m) h = grind (arith, h)

-- The remainder of a division has the magnitude of the remainder of the magnitudes and the sign of
-- the dividend.
pub remainder_lem :
    (a b : ℤ)
    → remainder a b ≡ (
        if is_negative a
        then negative (magnitude a % magnitude b)
        else pos (magnitude a % magnitude b))
unfolding remainder truncate_division
remainder_lem (pos a) (pos b) = unfold ◌-ℤ◌ ◌*ℤ◌ in ground (arith, div-add-mod' a b)
remainder_lem (pos a) (negsuc b) =
    remainder_by_negative a (a / suc b) b (a % suc b) (div-add-mod' a (suc b))
remainder_lem (negsuc a) (pos b) =
    remainder_by_positive a (suc a / b) b (suc a % b) (div-add-mod' (suc a) b)
remainder_lem (negsuc a) (negsuc b) =
    remainder_of_negatives a (suc a / suc b) b (suc a % suc b) (div-add-mod' (suc a) (suc b))
