-- ===== src/Ordering/Peers.antt =====
-- Peers, ROW_NUMBER, RANK and DENSE_RANK in `window` of src/parseval/instance/ordering.py.
use par_seval.Common.{
  ℕ, suc, ◌+◌, ◌-◌, Bool, true, false, not, Option, none, some, List, [], ◌∷◌, ◌++◌, if◌then◌else◌,
  length, get_or,
}
use par_seval.Ordering.{OrderKeySpec, Comparison, same, Key, compare_keys}

-- The lists `peer` and `starts`.
pub record Peers : Type 0 where
  pub peer : List ℕ
  pub starts : List ℕ

abbrev pub is_same : Comparison → Bool
is_same same = true
is_same _ = false

module _ (ss : List OrderKeySpec) where
  -- `not position or compare_keys(…)`
  unfoldable pub is_new : Option (Key ss) → Key ss → Bool
  unfolding compare_keys
  is_new none k = true
  is_new (some p) k = not (is_same (compare_keys ss p k))

  -- `starts.append(position)`
  unfoldable pub starts_with : Option (Key ss) → Key ss → ℕ → List ℕ → List ℕ
  unfolding is_new
  starts_with previous k position starts =
      if is_new previous k then starts ++ position ∷ [] else starts

  -- The loop over the ordered rows of a partition, by their keys.
  unfoldable pub group_peers : Option (Key ss) → ℕ → List ℕ → List (Key ss) → Peers
  unfolding starts_with
  group_peers previous position starts [] = record { peer = []; starts = starts }
  group_peers previous position starts (k ∷ ks) =
      let now = starts_with previous k position starts in
      let rest = group_peers (some k) (suc position) now ks in
      record { peer = (length now - 1) ∷ rest.peer; starts = rest.starts }

  abbrev pub peers_of : List (Key ss) → Peers
  peers_of ks = group_peers none 0 [] ks

-- ROW_NUMBER, RANK and DENSE_RANK of the ordered rows.
unfoldable pub row_numbers {ℓ} : {A : Type ℓ} → ℕ → List A → List ℕ
row_numbers position [] = []
row_numbers position (x ∷ xs) = (position + 1) ∷ row_numbers (suc position) xs

unfoldable pub rank_values : List ℕ → List ℕ → List ℕ
rank_values starts [] = []
rank_values starts (p ∷ ps) = (get_or starts p 0 + 1) ∷ rank_values starts ps

unfoldable pub dense_rank_values : List ℕ → List ℕ
dense_rank_values [] = []
dense_rank_values (p ∷ ps) = (p + 1) ∷ dense_rank_values ps
