-- ===== src/Examples/Searching.antt =====
-- Searches of src/parseval/smt/csp.py: `x < 5` with `x IS NULL`, and `x < 5` alone.
use par_seval.Common.{
  ℕ, ◌≡◌, ◌≢◌, ◌↔◌, refl, Bool, true, false, Option, none, some, List, [], ◌∷◌, ◌++◌, arith, ◌<◌,
}
use par_seval.Common.Int.{pos}
use par_seval.Scalar.Outcome.{failed}
use par_seval.Scalar.Term.{int, Predicate, lt3, is_null, literal, parameter}
use par_seval.Scalar.Evaluate.{Runtime, Assignment, evaluate, less}
use par_seval.Space.{admits}
use par_seval.Smt.Formula.{
  atom, Formulas, no_formulas, formulas, eq_var, holds, is_null as is_null_atom,
}
use par_seval.Smt.Valuation.{Valuation, is_excluded, is_open_predicate}
use par_seval.Smt.Valuation.Laws.{IsAdmissible}
use par_seval.Smt.Links.{Link, equal_link, unequal_link, no_parents, root, forest, consistent}
use par_seval.Smt.Links.Forest.{root-ends}
use par_seval.Smt.Links.Consistency.{AllAgree, consistent-IsExact}
use par_seval.Smt.Search.{State, entailed, propagate}
use par_seval.Smt.Search.Measure.{weigh, size, Propagated, propagate-ends}
use par_seval.Smt.Search.Sound.{Satisfies, AllOpen}
use par_seval.Smt.Search.Entailed.{entailed-holds}
use par_seval.Smt.Search.Domain.{sql_values, fresh_space, narrow_space, value_spaces}
use par_seval.Smt.Search.Domain.Sound.{value_spaces-IsSound}
use par_seval.Smt.Search.Domain.Refutation.{search-refutes}
use par_seval.Smt.Search.Solve.{
  Picks, too_deep, solve, all_met, overridden, values, unsatisfiable, search, first_tally,
}
use par_seval.Smt.Search.Solve.Ends.{solve-ends}
use par_seval.Smt.Search.Solve.Found.{search-values}

abbrev pub plain_runtime : Runtime
plain_runtime = record { scalar = λ f args. failed; case_insensitive = false; casefold = λ t. t }

-- Every input is open.
abbrev pub open_cells : Valuation
open_cells = record {
  runtime = plain_runtime;
  is_open_input = λ x. true;
  is_binary = λ x. false;
  stored = λ x. none;
  excluded = λ x. [];
}

abbrev all_nullable : ℕ → Bool
all_nullable x = true

abbrev no_id : Predicate → ℕ
no_id p = 0

abbrev pub all_three : Assignment
all_three x = some (int (pos 3))

pub all_three-IsAdmissible : IsAdmissible open_cells all_three
unfolding is_excluded
all_three-IsAdmissible = record { closed = λ x h. cc; binary = λ x h. cc; fresh = λ x c h. cc }

all_three-admitted :
    (x : ℕ)
    → admits (sql_values plain_runtime) (fresh_space open_cells all_nullable no_id x) (all_three x)
      ≡ true
unfolding admits fresh_space
all_three-admitted x = refl

abbrev below_five : Predicate
below_five = lt3 (parameter 0) (literal (int (pos 5)))

abbrev no_value : Predicate
no_value = is_null (parameter 0)

abbrev SqlState : Type 0
SqlState = State (value_spaces open_cells all_nullable no_id)

abbrev pick_three : SqlState → Option Picks
pick_three s = some (λ x. some (some (int (pos 3))))

refuted :
    search open_cells
      (value_spaces open_cells all_nullable no_id)
      pick_three
      4
      ((below_five ∷ []) ∷ (no_value ∷ []) ∷ [])
    ≡ unsatisfiable
unfolding search is_open_predicate evaluate narrow_space fresh_space
refuted = refl

search-refutes_example :
    all_met plain_runtime all_three ((below_five ∷ []) ∷ (no_value ∷ []) ∷ []) ≡ false
search-refutes_example =
    search-refutes open_cells all_three all_nullable no_id pick_three 4
      ((below_five ∷ []) ∷ (no_value ∷ []) ∷ []) refl all_three-IsAdmissible all_three-admitted
      refuted

searched :
    search open_cells
      (value_spaces open_cells all_nullable no_id)
      pick_three
      4
      ((below_five ∷ []) ∷ [])
    ≡ values (λ x. some (some (int (pos 3))))
unfolding search is_open_predicate evaluate less narrow_space fresh_space
searched = refl

search-values_example :
    all_met plain_runtime
      (overridden (λ x. none) (λ x. some (some (int (pos 3)))))
      ((below_five ∷ []) ∷ [])
    ≡ true
search-values_example =
    search-values open_cells (value_spaces open_cells all_nullable no_id) pick_three 4
      ((below_five ∷ []) ∷ []) (λ x. some (some (int (pos 3)))) searched

abbrev either_null : Formulas
either_null = formulas (atom 0 is_null_atom) (formulas (atom 1 is_null_atom) no_formulas)

abbrev one_choice : SqlState
one_choice = record { spaces = λ x. none; links = equal_link 0 1 ∷ []; choices = either_null ∷ [] }

either_null-light : weigh (either_null ∷ []) < 4
unfolding weigh size
either_null-light = omega arith

propagate-ends_example :
    Propagated
      (value_spaces open_cells all_nullable no_id)
      (weigh (either_null ∷ []))
      (propagate (value_spaces open_cells all_nullable no_id) 4 one_choice)
propagate-ends_example =
    propagate-ends (value_spaces open_cells all_nullable no_id) 4 one_choice either_null-light

solve-ends_example :
    (solve
      (value_spaces open_cells all_nullable no_id)
      pick_three
      (λ a. true)
      4
      one_choice
      first_tally).0
    ≢ too_deep
solve-ends_example =
    solve-ends (value_spaces open_cells all_nullable no_id) pick_three (λ a. true) 4 one_choice
      first_tally either_null-light

abbrev linked : SqlState
linked = record { spaces = λ x. none; links = equal_link 0 1 ∷ []; choices = [] }

linked-Satisfies :
    Satisfies
      (value_spaces open_cells all_nullable no_id)
      plain_runtime
      all_three
      (value_spaces-IsSound open_cells refl all_nullable no_id all_three all_three-admitted)
      linked
unfolding AllOpen AllAgree
linked-Satisfies = record { fits = λ x c e. cc; agree = (refl, tt); open_choices = tt }

linked-entails :
    entailed (value_spaces open_cells all_nullable no_id) linked (atom 1 (eq_var 0)) ≡ true
unfolding entailed
linked-entails = refl

entailed-holds_example : holds plain_runtime all_three (atom 1 (eq_var 0)) ≡ true
entailed-holds_example =
    entailed-holds (value_spaces open_cells all_nullable no_id) plain_runtime all_three
      (value_spaces-IsSound open_cells refl all_nullable no_id all_three all_three-admitted) linked
      (atom 1 (eq_var 0)) linked-Satisfies linked-entails

abbrev chain : List Link
chain = equal_link 0 1 ∷ equal_link 1 2 ∷ []

consistent-IsExact_example :
    (consistent chain (unequal_link 0 2) ≡ true)
    ↔ ((env : ℕ → ℕ) × AllAgree env (chain ++ unequal_link 0 2 ∷ []))
consistent-IsExact_example = consistent-IsExact chain (unequal_link 0 2)

chain-clashes : consistent chain (unequal_link 0 2) ≡ false
unfolding consistent
chain-clashes = refl

root-ends_example :
    forest 2 no_parents chain (root 2 (forest 2 no_parents chain) 0)
    ≡ root 2 (forest 2 no_parents chain) 0
root-ends_example = root-ends chain 0
