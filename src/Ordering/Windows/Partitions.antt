-- ===== src/Ordering/Windows/Partitions.antt =====
-- The partitions of `window` in src/parseval/instance/ordering.py, and the places LAG and LEAD read.
use par_seval.Common.{
  ℕ, suc, ◌<◌, ◌≡◌, ◌↔◌, sym, true, false, Bool-cases, inl, inr, arith, Option, some, List, [], ◌∷◌,
  ◌++◌, append_assoc, append-nil,
}
use mathlib.Core.Path.{subst}
use mathlib.Core.List.{Perm, perm_middle}
use mathlib.Core.List.Perm
use par_seval.Common.Int.{ℤ, pos, negsuc, ◌+ℤ◌, ◌-ℤ◌}
use par_seval.Scalar.Term.{Value}
use par_seval.Ordering.Stable.{positions}
use par_seval.Ordering.Windows.{
  same_tuple, Partitions, add_member, partitions, in_partition, offset_target,
}

-- The rows of all partitions.
unfoldable pub all_members : Partitions → List ℕ
all_members [] = []
all_members ((k, members) ∷ ps) = members ++ all_members ps

add_member-perm :
    (key : List (Option Value)) (i : ℕ) (ps : Partitions)
    → Perm (all_members (add_member key i ps)) (i ∷ all_members ps)
unfolding add_member all_members
add_member-perm key i [] = Perm.refl (i ∷ [])
add_member-perm key i ((k, members) ∷ ps) = elim (Bool-cases (same_tuple k key)) [
  | inl e ↦
      rw (e, append_assoc members (i ∷ []) (all_members ps)) (perm_middle members (all_members ps))
  | inr e ↦ rw e (
      Perm.trans (Perm.append (Perm.refl members) (add_member-perm key i ps))
        (perm_middle members (all_members ps)))
]

partitions-cover :
    (ps : Partitions) (i : ℕ) (keys : List (List (Option Value)))
    → Perm (all_members (partitions ps i keys)) (all_members ps ++ positions i keys)
unfolding partitions positions
partitions-cover ps i [] =
    subst (λ xs. Perm (all_members ps) xs) (sym (append-nil (all_members ps)))
      (Perm.refl (all_members ps))
partitions-cover ps i (key ∷ keys) =
    Perm.trans (partitions-cover (add_member key i ps) (suc i) keys) (
      Perm.trans (Perm.append (add_member-perm key i ps) (Perm.refl (positions (suc i) keys)))
        (Perm.symm (perm_middle (all_members ps) (positions (suc i) keys))))

-- Every row of the input stands in exactly one partition, once.
pub partitions-perm :
    (keys : List (List (Option Value)))
    → Perm (all_members (partitions [] 0 keys)) (positions 0 keys)
partitions-perm keys = unfold all_members in partitions-cover [] 0 keys

-- For any offset, which may be negative: LEAD from position p reads position q exactly when q is in the
-- partition and is p plus the offset, and LAG from q reads p exactly when p is in the partition and q
-- is p plus the offset.
pub lead-lag :
    (offset : ℤ) (p q count : ℕ)
    → ((offset_target true p (some offset) count ≡ some q)
        ↔ ((q < count) × (pos q ≡ pos p +ℤ offset)))
      × ((offset_target false q (some offset) count ≡ some p)
          ↔ ((p < count) × (pos q ≡ pos p +ℤ offset)))
unfolding offset_target in_partition ◌+ℤ◌ ◌-ℤ◌
lead-lag (pos n) p q count = ground arith
lead-lag (negsuc n) p q count = ground arith
