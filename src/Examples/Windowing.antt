-- ===== src/Examples/Windowing.antt =====
-- Orders and windows of src/parseval/instance/ordering.py on three rows.
use par_seval.Common.{
  ℕ, suc, ◌+◌, ◌-◌, ◌<◌, ◌≡◌, ◌↔◌, refl, Option, none, some, List, [], ◌∷◌, map, true, false, take,
  drop,
}
use mathlib.Core.List.{Perm}
use par_seval.Common.Int.{pos, negsuc, ◌+ℤ◌}
use par_seval.Scalar.Outcome.{returned}
use par_seval.Scalar.Term.{Value, int}
use par_seval.Scalar.Order.{value_before}
use par_seval.Ordering.{
  OrderKeySpec, asc, first, Key, and_then, compare_keys, sorted, numbered, order,
}
use par_seval.Ordering.Preorder.{IsAtMost, compare_keys-and_then}
use par_seval.Ordering.Stable.{positions, IsStable, order-IsStable}
use par_seval.Ordering.Peers.{peers_of, group_peers, rank_values}
use par_seval.Ordering.Ranks.{count_smaller, ordered_keys, rank_values-count}
use par_seval.Ordering.Windows.{partitions, offset_target, frame_of, Place}
use par_seval.Ordering.Windows.Partitions.{all_members, partitions-perm, lead-lag}
use par_seval.Ordering.Windows.Frames.{rows_between, IsNumbered, rows_between-slice}

abbrev nulls_first : List OrderKeySpec
nulls_first = record { direction = asc; nulls = first } ∷ []

abbrev one_key : Option Value → Key nulls_first
unfolding Key
one_key v = (v, tt)

abbrev three_keys : List (Key nulls_first)
three_keys = one_key (some (int (pos 5))) ∷ one_key none ∷ one_key (some (int (pos 5))) ∷ []

null-IsAtMost : IsAtMost (compare_keys nulls_first (one_key none) (one_key (some (int (pos 5)))))
unfolding compare_keys IsAtMost
null-IsAtMost = tt

five-IsAtMost :
    IsAtMost
      (compare_keys nulls_first (one_key (some (int (pos 5)))) (one_key (some (int (pos 5)))))
unfolding compare_keys value_before IsAtMost
five-IsAtMost = tt

compare_keys-and_then_example :
    compare_keys nulls_first (one_key none) (one_key (some (int (pos 5))))
    ≡ and_then
        (compare_keys nulls_first (one_key none) (one_key (some (int (pos 5)))))
        (compare_keys nulls_first (one_key (some (int (pos 5)))) (one_key (some (int (pos 5)))))
compare_keys-and_then_example =
    compare_keys-and_then nulls_first (one_key none) (one_key (some (int (pos 5))))
      (one_key (some (int (pos 5)))) null-IsAtMost five-IsAtMost

three-ordered : order nulls_first three_keys ≡ 1 ∷ 0 ∷ 2 ∷ []
unfolding order value_before
three-ordered = refl

order-IsStable_example :
    Perm (order nulls_first three_keys) (positions 0 three_keys)
    × IsStable nulls_first (sorted nulls_first (numbered nulls_first 0 three_keys))
order-IsStable_example = order-IsStable nulls_first three_keys

rank_values-count_example :
    rank_values
      (peers_of nulls_first (ordered_keys nulls_first three_keys)).starts
      (peers_of nulls_first (ordered_keys nulls_first three_keys)).peer
    ≡ map
        (λ k. count_smaller nulls_first k (ordered_keys nulls_first three_keys) + 1)
        (ordered_keys nulls_first three_keys)
rank_values-count_example = rank_values-count nulls_first three_keys

three-ranked :
    rank_values
      (peers_of nulls_first (ordered_keys nulls_first three_keys)).starts
      (peers_of nulls_first (ordered_keys nulls_first three_keys)).peer
    ≡ 1 ∷ 2 ∷ 2 ∷ []
unfolding rank_values group_peers sorted numbered value_before
three-ranked = refl

abbrev partition_keys : List (List (Option Value))
partition_keys = (some (int (pos 1)) ∷ []) ∷ (none ∷ []) ∷ (none ∷ []) ∷ []

partitions-perm_example :
    Perm (all_members (partitions [] 0 partition_keys)) (positions 0 partition_keys)
partitions-perm_example = partitions-perm partition_keys

lead-lag_example :
    ((offset_target true 3 (some (negsuc 1)) 5 ≡ some 1) ↔ ((1 < 5) × (pos 1 ≡ pos 3 +ℤ negsuc 1)))
    × ((offset_target false 1 (some (negsuc 1)) 5 ≡ some 3)
        ↔ ((3 < 5) × (pos 1 ≡ pos 3 +ℤ negsuc 1)))
lead-lag_example = lead-lag (negsuc 1) 3 1 5

two_back : offset_target true 3 (some (negsuc 1)) 5 ≡ some 1
unfolding offset_target
two_back = refl

abbrev place : ℕ → Place
place n = record { position = n; peer = n; key = none }

abbrev three_places : List Place
three_places = place 0 ∷ place 1 ∷ place 2 ∷ []

three_places-IsNumbered : IsNumbered 0 three_places
unfolding IsNumbered
three_places-IsNumbered = (refl, (refl, (refl, tt)))

rows_between-slice_example :
    frame_of (rows_between 1 0) asc (place 2) three_places
    ≡ returned (take (suc (2 + 0) - (2 - 1)) (drop (2 - 1) three_places))
rows_between-slice_example =
    rows_between-slice 1 0 asc (place 2) three_places three_places-IsNumbered
