-- ===== src/Uexpr/Order.antt =====
-- src/parseval/uexpr/order.py: the normal form of ordered (sequence) terms. A term of the arena is
-- the tree that it unfolds to; relations, row functions and key functions are opaque numbers, since
-- the module only moves them around.
pub mod Meaning
pub mod Canonical
use par_seval.Common.{
  ℕ, ◌+◌, ◌-◌, min, Bool, true, false, Option, none, some, List, [], ◌∷◌, ◌++◌, map, if◌then◌else◌,
}
use par_seval.Common.Int.{ℤ, pos, negsuc}

-- The payload value of a literal, as far as `_natural_literal` tells values apart.
pub data Value : Type 0 where
  int : ℤ → Value
  bool : Bool → Value
  text : ℕ → Value

-- A bound of TAKE, DROP or SLICE.
pub data Count : Type 0 where
  literal : Value → Count
  computed : ℕ → Count

pub record OrderKeySpec : Type 0 where
  pub descending : Bool
  pub nulls_first : Bool
  pub collation : Option ℕ

pub record OrderKeyTerm : Type 0 where
  pub function : ℕ
  pub spec : OrderKeySpec

pub data Term : Type 0 where
  relation : ℕ → Term
  other_sequence : ℕ → Term
  let_rel : Term → Term → Term
  seq_map : Term → ℕ → Term
  take_rows : Count → Term → Term
  drop_rows : Count → Term → Term
  slice : Count → Count → Term → Term
  order_by : Term → List OrderKeyTerm → Term

-- The sort that the arena infers is a SeqSort.
unfoldable pub is_sequence : Term → Bool
is_sequence (relation r) = false
is_sequence (let_rel d t) = is_sequence t
is_sequence _ = true

unfoldable pub natural_literal : Count → Option ℕ
natural_literal (literal (int (pos n))) = some n
natural_literal (literal _) = none
natural_literal (computed _) = none

pub data Operation : Type 0 where
  took : ℕ → Operation
  dropped : ℕ → Operation
  sliced : ℕ → ℕ → Operation

pub record OrderNormalForm : Type 0 where
  pub source : Term
  pub keys : List OrderKeyTerm
  pub offset : ℕ
  pub fetch : Option ℕ
  pub mapper : Option ℕ
  pub bindings : List Term

-- What the second loop has gathered when it stops at `current`: the operations, outermost first.
pub record Walk : Type 0 where
  pub current : Term
  pub mapper : Option ℕ
  pub operations : List Operation

-- The second loop of `analyze_order_normal_form`, with `mapper` and `operations` as it goes.
unfoldable pub walk : Term → Option ℕ → List Operation → Option Walk
unfolding natural_literal
walk (seq_map source f) none ops = walk source (some f) ops
walk (seq_map source f) (some g) ops = none
walk (take_rows c t) m ops = elim (natural_literal c) [
  | none ↦ none
  | some n ↦ walk t m (ops ++ took n ∷ [])
]
walk (drop_rows c t) m ops = elim (natural_literal c) [
  | none ↦ none
  | some n ↦ walk t m (ops ++ dropped n ∷ [])
]
walk (slice o c t) m ops = elim (natural_literal o) [
  | none ↦ none
  | some a ↦ elim (natural_literal c) [ none ↦ none | some b ↦ walk t m (ops ++ sliced a b ∷ []) ]
]
walk t m ops = some (record { current = t; mapper = m; operations = ops })

-- `start` and `end` of the last loop.
pub record Interval : Type 0 where
  pub start : ℕ
  pub stop : Option ℕ

unfoldable pub cap_by : ℕ → Option ℕ → ℕ
cap_by n none = n
cap_by n (some e) = min n e

-- One round of the loop over `reversed(operations)`.
unfoldable pub narrow_interval : Interval → Operation → Interval
unfolding cap_by
narrow_interval i (dropped n) = record { start = cap_by (i.start + n) i.stop; stop = i.stop }
narrow_interval i (took n) = record { start = i.start; stop = some (cap_by (i.start + n) i.stop) }
narrow_interval i (sliced o n) =
    let first = cap_by (i.start + o) i.stop in
    record { start = first; stop = some (cap_by (first + n) i.stop) }

-- The loop over `reversed(operations)`: the innermost operation, last in the list, comes first.
unfoldable pub interval_of : List Operation → Interval
unfolding narrow_interval
interval_of [] = record { start = 0; stop = none }
interval_of (op ∷ ops) = narrow_interval (interval_of ops) op

-- `max(end - start, 0)`, or None with no end.
unfoldable pub fetch_of : Interval → Option ℕ
fetch_of i = elim i.stop [ none ↦ none | some e ↦ some (e - i.start) ]

-- The definitions wrapped around the source, the innermost binding first.
unfoldable pub close_source : List Term → Term → Term
close_source [] source = source
close_source (d ∷ ds) source = let_rel d (close_source ds source)

unfoldable pub normal_form : List Term → Walk → Option OrderNormalForm
unfolding interval_of fetch_of close_source
normal_form bindings w = elim w.current [
  | order_by source keys ↦ some (record {
    source = close_source bindings source;
    keys = keys;
    offset = (interval_of w.operations).start;
    fetch = fetch_of (interval_of w.operations);
    mapper = w.mapper;
    bindings = bindings;
  })
  | _ ↦ none
]

-- The first loop peels the LET bindings off, and hands the rest to the second.
unfoldable pub peel : Term → List Term → Option OrderNormalForm
unfolding walk normal_form
peel (let_rel d t) bindings = peel t (bindings ++ d ∷ [])
peel t bindings = elim (walk t none []) [ none ↦ none | some w ↦ normal_form bindings w ]

unfoldable pub analyze_order_normal_form : Term → Option OrderNormalForm
unfolding is_sequence peel
analyze_order_normal_form root = if is_sequence root then peel root [] else none

unfoldable pub natural : ℕ → Count
natural n = literal (int (pos n))

-- `if normal.offset or normal.fetch is not None: …`
unfoldable pub rebuild_slice : ℕ → Option ℕ → Term → Term
unfolding natural
rebuild_slice ℕ.zero none t = t
rebuild_slice offset none t = drop_rows (natural offset) t
rebuild_slice offset (some n) t = slice (natural offset) (natural n) t

unfoldable pub rebuild_map : Option ℕ → Term → Term
rebuild_map none t = t
rebuild_map (some f) t = seq_map t f

unfoldable pub rebuild_normal : OrderNormalForm → Term
unfolding rebuild_slice rebuild_map
rebuild_normal n = rebuild_map n.mapper (rebuild_slice n.offset n.fetch (order_by n.source n.keys))

-- `if normal is None: return root`, `if normal.bindings: return root`, and the rebuilt term.
unfoldable pub rebuild_unbound : Term → Option OrderNormalForm → Term
unfolding rebuild_normal
rebuild_unbound root none = root
rebuild_unbound root (some normal) = elim normal.bindings [ [] ↦ rebuild_normal normal | _ ↦ root ]

unfoldable pub normalize_order_term : Term → Term
unfolding analyze_order_normal_form rebuild_unbound
normalize_order_term root = rebuild_unbound root (analyze_order_normal_form root)
