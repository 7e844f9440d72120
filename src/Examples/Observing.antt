-- ===== src/Examples/Observing.antt =====
-- Runs of src/parseval/generator/coverage.py with at most one condition per outcome.
use par_seval.Common.Options.{◌>>=◌}
use par_seval.Common.{ℕ, ◌≡◌, refl, true, false, none, [], ◌∷◌, ◌++◌, ◌==◌}
use par_seval.Coverage.{Target, initial, Recorder, wants, observe, is_kept}
use par_seval.Coverage.Bounds.{IsBounded, initial-IsBounded, observe-IsBounded, wants-observe}
use par_seval.Common.{◌<◌, arith, some}
use par_seval.Coverage.Sites.{
  Sites, no_sites, known_child, path_of, child, child_again, path_of-child,
}
use par_seval.Storage.{StorageType, integer, capacity, fits, nth_integer, nth_integer-fits}

abbrev one_each : Recorder
one_each = record { limit = 1; every = none; true_term = 0; is_constant = λ w. w == 1 }

abbrev first_target : Target
first_target = record { site = 3; outcome = 0 }

observe-IsBounded_example : IsBounded one_each (observe one_each initial first_target true 7)
observe-IsBounded_example =
    observe-IsBounded one_each initial first_target true 7 (initial-IsBounded one_each)

wanted : wants one_each initial first_target false ≡ true
unfolding wants
wanted = refl

not_kept : is_kept 7 (initial.candidates first_target) ≡ false
unfolding is_kept
not_kept = refl

wants-observe_example :
    (observe one_each initial first_target false 7).candidates first_target ≡ [] ++ 7 ∷ []
wants-observe_example = wants-observe one_each initial first_target 7 wanted refl refl refl not_kept

abbrev one_child : Sites
one_child = record { children = ((0, 3), 1) ∷ []; paths = [] ∷ (3 ∷ []) ∷ [] }

first_child : child no_sites 0 3 ≡ some (1, one_child)
unfolding child
first_child = refl

child_again_example : (child one_child 1 2 >>= λ q. child q.1 1 2) ≡ child one_child 1 2
child_again_example = child_again one_child 1 2

unknown_child : known_child 1 2 one_child.children ≡ none
unfolding known_child
unknown_child = refl

parent_path : path_of 1 one_child.paths ≡ some (3 ∷ [])
unfolding path_of
parent_path = refl

path_of-child_example :
    (c : ℕ) × (after : Sites) × (child one_child 1 2 ≡ some (c, after))
    × (path_of c after.paths ≡ some (3 ∷ 2 ∷ []))
path_of-child_example = path_of-child one_child 1 2 (3 ∷ []) unknown_child parent_path

abbrev byte_column : StorageType
byte_column = record {
  kind = integer;
  max_length = none;
  integer_bits = some 8;
  precision = none;
  scale = none;
}

byte_capacity : capacity byte_column ≡ some 127
unfolding capacity
byte_capacity = refl

forty_below : 40 < 127
forty_below = omega arith

nth_integer-fits_example : fits (some (nth_integer 40)) byte_column ≡ true
nth_integer-fits_example = nth_integer-fits 8 40 127 byte_capacity forty_below
