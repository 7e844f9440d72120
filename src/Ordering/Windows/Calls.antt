-- ===== src/Ordering/Windows/Calls.antt =====
-- `window` of src/parseval/instance/ordering.py, from the callbacks that it is given.
use par_seval.Common.{
  ℕ, zero, suc, ◌+◌, Bool, true, false, Option, none, some, List, [], ◌∷◌, map, if◌then◌else◌,
  length, get_or, set, replicate,
}
use par_seval.Common.Int.{ℤ, pos}
use par_seval.Scalar.Outcome.{Outcome, returned, failed, ◌>>=◌}
use par_seval.Scalar.Term.{Value, bool, int}
use par_seval.Scalar.Evaluate.{same_value}
use par_seval.Ordering.{Direction, asc, OrderKeySpec, Key, order}
use par_seval.Ordering.Peers.{peers_of}
use par_seval.Ordering.Windows.{Frame, Place, frame_of, lag_or_lead, offset_target, partitions}

-- `WindowFunctionKind`
pub data WindowKind : Type 0 where
  row_number rank dense_rank lag lead window_aggregate : WindowKind

-- The fields of `WindowCallLayout` that `window` reads.
pub record WindowCall : Type 0 where
  pub kind : WindowKind
  pub argument_children : List ℕ
  pub partition_children : List ℕ
  pub order_children : List ℕ
  pub order_specs : List OrderKeySpec
  pub frame : Frame
  pub filter_child : Option ℕ
  pub distinct : Bool

unfoldable pub direction_of : List OrderKeySpec → Direction
direction_of [] = asc
direction_of (s ∷ ss) = s.direction

-- The offset of LAG and LEAD: Python adds a Boolean as 1 or 0, and a text is a TypeError.
unfoldable pub offset_of : Option Value → Outcome (Option ℤ)
offset_of none = returned none
offset_of (some (int n)) = returned (some n)
offset_of (some (bool b)) = returned (some (pos (if b then 1 else 0)))
offset_of (some v) = failed

unfoldable pub among : Value → List Value → Bool
unfolding same_value
among v [] = false
among v (w ∷ ws) = if same_value v w then true else among v ws

-- `list(dict.fromkeys(arguments))`, with the values met so far.
unfoldable pub first_only : List Value → List Value → List Value
unfolding among
first_only seen [] = []
first_only seen (v ∷ vs) =
    let rest = first_only (v ∷ seen) vs in if among v seen then first_only seen vs else v ∷ rest

abbrev pub is_true_value : Option Value → Bool
is_true_value (some (bool b)) = b
is_true_value v = false

module _ (call : WindowCall) (apply : ℕ → ℕ → Option Value)
    (aggregate : List Value → Option Value) where
  -- The order key of a row.
  unfoldable pub key_of : (ss : List OrderKeySpec) → List ℕ → ℕ → Key ss
  unfolding Key
  key_of [] cs i = tt
  key_of (s ∷ ss) [] i = (none, key_of ss [] i)
  key_of (s ∷ ss) (c ∷ cs) i = (apply c i, key_of ss cs i)

  -- The first order key, which RANGE compares.
  unfoldable pub first_key : List ℕ → ℕ → Option Value
  first_key [] i = none
  first_key (c ∷ cs) i = apply c i

  unfoldable pub places : ℕ → List ℕ → List ℕ → List Place
  unfolding first_key
  places position (i ∷ ordered) (p ∷ peer) =
      record { position = position; peer = p; key = first_key call.order_children i }
      ∷ places (suc position) ordered peer
  places position _ _ = []

  -- The rows of a frame that pass the FILTER.
  unfoldable pub filtered : Option ℕ → List ℕ → List ℕ
  filtered none rows = rows
  filtered (some c) [] = []
  filtered (some c) (i ∷ rows) =
      let rest = filtered (some c) rows in if is_true_value (apply c i) then i ∷ rest else rest

  -- The argument of each row that is not NULL; without an argument it is 1.
  unfoldable pub arguments_of : List ℕ → List ℕ → List Value
  arguments_of cs [] = []
  arguments_of [] (i ∷ rows) = int (pos 1) ∷ arguments_of [] rows
  arguments_of (c ∷ cs) (i ∷ rows) = elim (apply c i) [
    | none ↦ arguments_of (c ∷ cs) rows
    | some v ↦ v ∷ arguments_of (c ∷ cs) rows
  ]

  -- LAG and LEAD of the row at a position.
  unfoldable pub shifted_value : Bool → List ℕ → List ℕ → ℕ → ℕ → Outcome (Option Value)
  unfolding lag_or_lead offset_target offset_of
  shifted_value is_lead [] ordered position i =
      elim (offset_target is_lead position (some (pos 1)) (length ordered)) [
        | none ↦ returned none
        | some target ↦ failed
      ]
  shifted_value is_lead (c ∷ []) ordered position i =
      returned (lag_or_lead is_lead position (some (pos 1)) none (map (apply c) ordered))
  shifted_value is_lead (c ∷ d ∷ []) ordered position i = do
    offset ← offset_of (apply d i)
    returned (lag_or_lead is_lead position offset none (map (apply c) ordered))
  shifted_value is_lead (c ∷ d ∷ e ∷ cs) ordered position i = do
    offset ← offset_of (apply d i)
    returned (lag_or_lead is_lead position offset (apply e i) (map (apply c) ordered))

  -- The aggregate over the frame of a row.
  unfoldable pub framed_value : List ℕ → List Place → Place → Outcome (Option Value)
  unfolding frame_of filtered arguments_of first_only direction_of
  framed_value ordered all_places here = do
    ps ← frame_of call.frame (direction_of call.order_specs) here all_places
    let rows = filtered call.filter_child (map (λ p. get_or ordered p.position 0) ps)
    let vs = arguments_of call.argument_children rows
    returned (aggregate (if call.distinct then first_only [] vs else vs))

  unfoldable pub value_at :
      List ℕ → List Place → List ℕ → Place → ℕ → WindowKind → Outcome (Option Value)
  unfolding shifted_value framed_value
  value_at ordered ps starts here i row_number = returned (some (int (pos (here.position + 1))))
  value_at ordered ps starts here i rank =
      returned (some (int (pos (get_or starts here.peer 0 + 1))))
  value_at ordered ps starts here i dense_rank = returned (some (int (pos (here.peer + 1))))
  value_at ordered ps starts here i lag =
      shifted_value false call.argument_children ordered here.position i
  value_at ordered ps starts here i lead =
      shifted_value true call.argument_children ordered here.position i
  value_at ordered ps starts here i window_aggregate = framed_value ordered ps here

  -- `values[index] = …` for the rows of a partition.
  unfoldable pub fill :
      List ℕ
      → List Place
      → List ℕ
      → List Place
      → List ℕ
      → List (Option Value)
      → Outcome (List (Option Value))
  unfolding value_at
  fill ordered ps starts (here ∷ heres) (i ∷ rows) vs =
      value_at ordered ps starts here i call.kind >>= λ v.
      fill ordered ps starts heres rows (set vs i v)
  fill ordered ps starts _ _ vs = returned vs

  -- The ordered rows of a partition.
  unfoldable pub ordered_members : List ℕ → List ℕ
  unfolding order key_of
  ordered_members members =
      map (λ n. get_or members n 0)
        (order call.order_specs (map (key_of call.order_specs call.order_children) members))

  unfoldable pub fill_partition : List ℕ → List (Option Value) → Outcome (List (Option Value))
  unfolding fill places key_of
  fill_partition ordered vs =
      let groups =
        peers_of call.order_specs (map (key_of call.order_specs call.order_children) ordered) in
      let ps = places 0 ordered groups.peer in fill ordered ps groups.starts ps ordered vs

  unfoldable pub fill_partitions :
      List (List (Option Value) × List ℕ) → List (Option Value) → Outcome (List (Option Value))
  unfolding fill_partition ordered_members
  fill_partitions [] vs = returned vs
  fill_partitions ((k, members) ∷ rest) vs =
      fill_partition (ordered_members members) vs >>= fill_partitions rest

  unfoldable pub partition_keys : ℕ → ℕ → List (List (Option Value))
  partition_keys zero i = []
  partition_keys (suc n) i = map (λ c. apply c i) call.partition_children ∷ partition_keys n (suc i)

  -- `window`
  unfoldable pub window : ℕ → Outcome (List (Option Value))
  unfolding fill_partitions partition_keys partitions
  window count = fill_partitions (partitions [] 0 (partition_keys count 0)) (replicate count none)
