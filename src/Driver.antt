-- ===== src/Driver.antt =====
-- src/parseval/main.py: the comparison of two query results and the verdict of `disprove`.
pub mod Compare
pub mod Verdicts
pub mod Agreement
use par_seval.Common.{
  ℕ, zero, suc, ◌+◌, Bool, true, false, not, ◌&&◌, ◌||◌, Option, none, some, List, [], ◌∷◌, ◌++◌,
  if◌then◌else◌, ◌==◌,
}

-- A row of a result is known by a code; a message is its text.
pub data Result : Type 0 where
  rows : List ℕ → Result
  message : List ℕ → Result
  out_of_time : Result

unfoldable pub same_list : List ℕ → List ℕ → Bool
same_list [] [] = true
same_list (a ∷ xs) (b ∷ ys) = a == b && same_list xs ys
same_list _ _ = false

unfoldable pub has_row : ℕ → List ℕ → Bool
has_row a [] = false
has_row a (b ∷ xs) = a == b || has_row a xs

unfoldable pub all_in : List ℕ → List ℕ → Bool
unfolding has_row
all_in [] ys = true
all_in (a ∷ xs) ys = has_row a ys && all_in xs ys

-- `set(first) == set(second)`
unfoldable pub same_set : List ℕ → List ℕ → Bool
unfolding all_in
same_set xs ys = all_in xs ys && all_in ys xs

unfoldable pub occurrences : ℕ → List ℕ → ℕ
occurrences a [] = 0
occurrences a (b ∷ xs) = if a == b then 1 + occurrences a xs else occurrences a xs

unfoldable pub same_counts : List ℕ → List ℕ → List ℕ → Bool
unfolding occurrences
same_counts [] xs ys = true
same_counts (a ∷ keys) xs ys = occurrences a xs == occurrences a ys && same_counts keys xs ys

-- `Counter(first) == Counter(second)`: the counts agree on the keys of both.
unfoldable pub same_bag : List ℕ → List ℕ → Bool
unfolding same_counts
same_bag xs ys = same_counts (xs ++ ys) xs ys

-- `differ`, with `ordered` and `set_semantics`.
unfoldable pub differ : Bool → Bool → Result → Result → Bool
unfolding same_set same_list same_bag
differ ordered set_semantics out_of_time second = false
differ ordered set_semantics first out_of_time = false
differ ordered set_semantics (message a) (message b) = false
differ ordered set_semantics (message a) (rows ys) = true
differ ordered set_semantics (rows xs) (message b) = true
differ ordered set_semantics (rows xs) (rows ys) =
    if set_semantics
    then not (same_set xs ys)
    else if ordered
    then not (same_list xs ys)
    else not (same_bag xs ys)

-- A database is known by a code.
abbrev pub Instance : Type 0
Instance = ℕ

-- How `generate` ends: with an error, or with its result: whether it holds a database, and whether
-- the time limit passed.
pub data Ending : Type 0 where
  raised : Ending
  finished : Bool → Bool → Ending

-- The database versions that a generation accepts, in order, and how it ends when `on_instance` has
-- stopped it and when not.
pub record Generation : Type 0 where
  pub versions : List Instance
  pub ending : Bool → Ending

pub data Verdict : Type 0 where
  eq neq unknown syntax_error timeout : Verdict

pub record RunResult : Type 0 where
  pub verdict : Verdict
  pub counterexample : Option Instance
  pub results : Option (Result × Result)

-- The variables of `disprove` that `check` assigns.
pub record Search : Type 0 where
  pub counterexample : Option Instance
  pub results : Result × Result

-- What parsing gives for the two queries: for each, how many statements and whether it is ordered.
pub data Parsing : Type 0 where
  unparsed : Parsing
  parsed : ℕ → Bool → ℕ → Bool → Parsing

abbrev pub plain : Verdict → RunResult
plain v = record { verdict = v; counterexample = none; results = none }

unfoldable pub is_message : Result → Bool
is_message (message m) = true
is_message r = false

unfoldable pub is_out_of_time : Result → Bool
is_out_of_time out_of_time = true
is_out_of_time r = false

unfoldable pub has_rows : Result → Bool
has_rows (rows (a ∷ xs)) = true
has_rows r = false

module _ (run : Instance → Result × Result) (ordered set_semantics : Bool) where
  -- `check`: whether the queries differ on a database, and the search after it.
  unfoldable pub check : Instance → Search → Bool × Search
  unfolding differ
  check i s =
      let r = run i in
      if differ ordered set_semantics r.0 r.1
      then (true, record { counterexample = some i; results = r })
      else (false, record { counterexample = s.counterexample; results = r })

  -- A generation offers its versions to `check` until one is accepted.
  unfoldable pub offer : List Instance → Search → Bool × Search
  unfolding check
  offer [] s = (false, s)
  offer (i ∷ is) s = let (stop, t) = check i s in if stop then (true, t) else offer is t

  unfoldable pub doubt_of : Bool → Result × Result → List Verdict
  unfolding is_out_of_time has_rows
  doubt_of timed_out r =
      if is_out_of_time r.0 || is_out_of_time r.1
      then timeout ∷ []
      else if timed_out
      then timeout ∷ []
      else if has_rows r.0 || has_rows r.1
      then []
      else unknown ∷ []

  -- The body of the loop over the queries after `generate`, and the rest of the loop.
  unfoldable pub judge : Ending → Search → List Verdict → (List Verdict → RunResult) → RunResult
  unfolding doubt_of
  judge raised s doubts next = next (doubts ++ unknown ∷ [])
  judge (finished false timed_out) s doubts next =
      next (doubts ++ (if timed_out then timeout else unknown) ∷ [])
  judge (finished true timed_out) s doubts next = elim s.counterexample [
    | some i ↦ record { verdict = neq; counterexample = some i; results = some s.results }
    | none ↦ next (doubts ++ doubt_of timed_out s.results)
  ]

  unfoldable pub has_timeout : List Verdict → Bool
  has_timeout [] = false
  has_timeout (timeout ∷ vs) = true
  has_timeout (v ∷ vs) = has_timeout vs

  unfoldable pub conclude : List Verdict → RunResult
  unfolding has_timeout
  conclude [] = plain eq
  conclude (v ∷ vs) = plain (if has_timeout (v ∷ vs) then timeout else unknown)

  unfoldable pub search : List Generation → Search → List Verdict → RunResult
  unfolding offer judge conclude
  search [] s doubts = conclude doubts
  search (g ∷ gs) s doubts =
      let o = offer g.versions s in judge (g.ending o.0) o.1 doubts (search gs o.1)

  -- After the check of the empty database.
  unfoldable pub settle : Bool → List Generation → Search → RunResult
  unfolding search is_message
  settle is_parsed generations s =
      if is_message s.results.0 || is_message s.results.1
      then plain syntax_error
      else elim s.counterexample [
        | some i ↦ record { verdict = neq; counterexample = some i; results = some s.results }
        | none ↦ if is_parsed then search generations s [] else plain unknown
      ]

  unfoldable pub disprove_from : Bool → Instance → List Generation → RunResult
  unfolding check settle
  disprove_from is_parsed empty generations =
      settle is_parsed generations
        (check empty (record { counterexample = none; results = (out_of_time, out_of_time) })).1

-- `disprove`
unfoldable pub disprove :
    (Instance → Result × Result) → Bool → Parsing → Instance → List Generation → RunResult
unfolding disprove_from
disprove run set_semantics unparsed empty generations =
    disprove_from run false set_semantics false empty generations
disprove run set_semantics (parsed n1 o1 n2 o2) empty generations =
    if n1 == 1 && n2 == 1
    then disprove_from run (o1 && o2) set_semantics true empty generations
    else plain syntax_error
