-- ===== src/Examples/Calling.antt =====
-- Whole runs of `window` of src/parseval/instance/ordering.py on three rows.
use par_seval.Common.{ℕ, zero, suc, ◌≡◌, refl, Option, none, some, List, [], ◌∷◌, length, false}
use par_seval.Common.Int.{pos}
use par_seval.Scalar.Outcome.{returned, failed}
use par_seval.Scalar.Term.{Value, int}
use par_seval.Scalar.Order.{value_before}
use par_seval.Ordering.{asc, first}
use par_seval.Ordering.Peers.{group_peers}
use par_seval.Ordering.Windows.{Frame, rows, unbounded_preceding, current_row, no_others}
use par_seval.Ordering.Windows.Calls.{WindowKind, WindowCall, rank, lag, window_aggregate, window}

-- Child 0 is 5, NULL, 5 on the three rows.
abbrev cell : ℕ → ℕ → Option Value
cell c (suc zero) = none
cell c i = some (int (pos 5))

abbrev counted : List Value → Option Value
counted vs = some (int (pos (length vs)))

abbrev running : Frame
running = record {
  mode = rows;
  start = unbounded_preceding;
  end_boundary = current_row;
  exclusion = no_others;
}

abbrev call_of : WindowKind → List ℕ → WindowCall
call_of k arguments = record {
  kind = k;
  argument_children = arguments;
  partition_children = [];
  order_children = 0 ∷ [];
  order_specs = record { direction = asc; nulls = first } ∷ [];
  frame = running;
  filter_child = none;
  distinct = false;
}

abbrev number : ℕ → Option Value
number n = some (int (pos n))

-- NULL is first, and the two fives are peers.
ranks : window (call_of rank []) cell counted 3 ≡ returned (number 2 ∷ number 1 ∷ number 2 ∷ [])
unfolding window value_before group_peers
ranks = refl

-- The running COUNT skips NULL.
running_counts :
    window (call_of window_aggregate (0 ∷ [])) cell counted 3
    ≡ returned (number 1 ∷ number 0 ∷ number 2 ∷ [])
unfolding window value_before group_peers
running_counts = refl

lags : window (call_of lag (0 ∷ [])) cell counted 3 ≡ returned (none ∷ none ∷ number 5 ∷ [])
unfolding window value_before group_peers
lags = refl

-- LAG without an argument is an IndexError.
lag_of_nothing : window (call_of lag []) cell counted 3 ≡ failed
unfolding window value_before group_peers
lag_of_nothing = refl
