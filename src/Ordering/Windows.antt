-- ===== src/Ordering/Windows.antt =====
-- `window` and `_frame` of src/parseval/instance/ordering.py.
pub mod Partitions
pub mod Frames
pub mod Calls
use par_seval.Common.{
  ℕ, zero, suc, ◌+◌, ◌-◌, Bool, true, false, not, ◌&&◌, ◌||◌, Option, none, some, List, [], ◌∷◌,
  ◌++◌, map, if◌then◌else◌, ◌==◌, ltb, leb, length, get_or, get_elem?, set, replicate,
}
use par_seval.Common.Int.{ℤ, pos, negsuc, ◌+ℤ◌, ◌-ℤ◌, ltb_ℤ}
use par_seval.Scalar.Outcome.{Outcome, returned, failed, ◌>>=◌}
use par_seval.Scalar.Term.{Value, int}
use par_seval.Scalar.Evaluate.{not_distinct}
use par_seval.Ordering.{Direction, asc, desc}

-- `==` on tuples of SQL values.
unfoldable pub same_tuple : List (Option Value) → List (Option Value) → Bool
unfolding not_distinct
same_tuple [] [] = true
same_tuple (a ∷ xs) (b ∷ ys) = not_distinct a b && same_tuple xs ys
same_tuple _ _ = false

abbrev pub Partitions : Type 0
Partitions = List (List (Option Value) × List ℕ)

-- `partitions.setdefault(key, []).append(index)`
unfoldable pub add_member : List (Option Value) → ℕ → Partitions → Partitions
unfolding same_tuple
add_member key i [] = (key, i ∷ []) ∷ []
add_member key i ((k, members) ∷ ps) =
    let rest = add_member key i ps in
    if same_tuple k key then (k, members ++ i ∷ []) ∷ ps else (k, members) ∷ rest

-- The loop over all rows, by their partition keys.
unfoldable pub partitions : Partitions → ℕ → List (List (Option Value)) → Partitions
unfolding add_member
partitions ps i [] = ps
partitions ps i (key ∷ keys) = partitions (add_member key i ps) (suc i) keys

-- `0 <= target < len(ordered)`
unfoldable pub in_partition : ℤ → ℕ → Option ℕ
in_partition (pos n) count = if ltb n count then some n else none
in_partition (negsuc n) count = none

-- The position that LEAD or LAG reads; the offset may be NULL.
unfoldable pub offset_target : Bool → ℕ → Option ℤ → ℕ → Option ℕ
unfolding in_partition ◌+ℤ◌ ◌-ℤ◌
offset_target lead position none count = none
offset_target true position (some offset) count = in_partition (pos position +ℤ offset) count
offset_target false position (some offset) count = in_partition (pos position -ℤ offset) count

-- LAG and LEAD of a row, from the first argument's values of the ordered rows.
unfoldable pub lag_or_lead : Bool → ℕ → Option ℤ → Option Value → List (Option Value) → Option Value
unfolding offset_target
lag_or_lead lead position offset default vs =
    elim (offset_target lead position offset (length vs)) [
      | none ↦ default
      | some n ↦ get_or vs n none
    ]

pub data FrameMode : Type 0 where
  rows range groups : FrameMode

-- The kinds of boundary, with the offset of those that have one.
pub data Boundary : Type 0 where
  unbounded_preceding current_row unbounded_following : Boundary
  preceding following : ℕ → Boundary

pub data Exclusion : Type 0 where
  no_others exclude_current exclude_group exclude_ties : Exclusion

pub record Frame : Type 0 where
  pub mode : FrameMode
  pub start : Boundary
  pub end_boundary : Boundary
  pub exclusion : Exclusion

-- `actual >= target if start else actual <= target`, the target counted from a position or a peer.
unfoldable pub counted_bound : Bool → Boundary → ℕ → ℕ → Bool
counted_bound start unbounded_preceding here there = start
counted_bound start unbounded_following here there = not start
counted_bound true current_row here there = leb here there
counted_bound false current_row here there = leb there here
counted_bound true (preceding d) here there = leb here (there + d)
counted_bound false (preceding d) here there = leb (there + d) here
counted_bound true (following d) here there = leb (here + d) there
counted_bound false (following d) here there = leb there (here + d)

-- The order of two integers in the direction of the rows.
unfoldable pub reaches : Bool → Direction → ℤ → ℤ → Bool
reaches true asc target actual = not (ltb_ℤ actual target)
reaches false asc target actual = not (ltb_ℤ target actual)
reaches true desc target actual = not (ltb_ℤ target actual)
reaches false desc target actual = not (ltb_ℤ actual target)

unfoldable pub moved : Direction → ℤ → ℤ → ℤ
unfolding ◌+ℤ◌ ◌-ℤ◌
moved asc current offset = current +ℤ offset
moved desc current offset = current -ℤ offset

-- RANGE with an offset on keys that are present; of these, integers are modelled.
unfoldable pub range_bound : Bool → Direction → ℤ → Value → Value → Outcome Bool
unfolding reaches moved
range_bound start d offset (int current) (int actual) =
    returned (reaches start d (moved d current offset) actual)
range_bound start d offset _ _ = failed

-- With a NULL key the peers decide.
unfoldable pub null_bound :
    Bool → Direction → ℤ → Option Value → Option Value → ℕ → ℕ → Outcome Bool
unfolding range_bound
null_bound start d offset (some c) (some a) here there = range_bound start d offset c a
null_bound start d offset _ _ here there =
    returned (if start then leb here there else leb there here)

-- A row of the partition: its place, the number of its peers' group, and its first order key.
pub record Place : Type 0 where
  pub position : ℕ
  pub peer : ℕ
  pub key : Option Value

-- `bound`
unfoldable pub bound : FrameMode → Direction → Boundary → Bool → Place → Place → Outcome Bool
unfolding counted_bound null_bound
bound rows d b start here there = returned (counted_bound start b here.position there.position)
bound groups d b start here there = returned (counted_bound start b here.peer there.peer)
bound range d (preceding n) start here there =
    null_bound start d (pos 0 -ℤ pos n) here.key there.key here.peer there.peer
bound range d (following n) start here there =
    null_bound start d (pos n) here.key there.key here.peer there.peer
bound range d b start here there = returned (counted_bound start b here.peer there.peer)

unfoldable pub excluded : Exclusion → Place → Place → Bool
excluded no_others here there = false
excluded exclude_current here there = there.position == here.position
excluded exclude_group here there = there.peer == here.peer
excluded exclude_ties here there = there.peer == here.peer && not (there.position == here.position)

unfoldable pub in_frame : Frame → Direction → Place → Place → Outcome Bool
unfolding bound excluded
in_frame f d here there = do
  s ← bound f.mode d f.start true here there
  e ← if s then bound f.mode d f.end_boundary false here there else returned false
  returned (e && not (excluded f.exclusion here there))

-- `_frame`: the places of the selected rows.
unfoldable pub frame_of : Frame → Direction → Place → List Place → Outcome (List Place)
unfolding in_frame
frame_of f d here [] = returned []
frame_of f d here (p ∷ ps) = do
  b ← in_frame f d here p
  rest ← frame_of f d here ps
  returned (if b then p ∷ rest else rest)
