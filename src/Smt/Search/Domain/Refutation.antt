-- ===== src/Smt/Search/Domain/Refutation.antt =====
-- `search` of src/parseval/smt/csp.py over the spaces of SQL values.
use par_seval.Common.{ℕ, ◌≡◌, Bool, true, false, Option, List}
use par_seval.Scalar.Term.{Predicate}
use par_seval.Scalar.Evaluate.{Assignment}
use par_seval.Space.{admits}
use par_seval.Smt.Valuation.{Valuation}
use par_seval.Smt.Valuation.Laws.{IsAdmissible}
use par_seval.Smt.Search.{State}
use par_seval.Smt.Search.Solve.{Picks, all_met, unsatisfiable, search}
use par_seval.Smt.Search.Solve.Requirements.{search-unsatisfiable}
use par_seval.Smt.Search.Domain.{sql_values, fresh_space, value_spaces}
use par_seval.Smt.Search.Domain.Sound.{value_spaces-IsSound}

-- When texts compare with case and `search` raises Unsatisfiable, then under every admissible
-- assignment whose values the new spaces of the inputs admit, some requirement has no alternative that
-- evaluates to TRUE.
pub search-refutes :
    (v : Valuation) (env : Assignment) (nullable : ℕ → Bool) (id_of : Predicate → ℕ)
    (pick : State (value_spaces v nullable id_of) → Option Picks) (n : ℕ)
    (pss : List (List Predicate))
    → v.runtime.case_insensitive ≡ false
    → IsAdmissible v env
    → ((x : ℕ) → admits (sql_values v.runtime) (fresh_space v nullable id_of x) (env x) ≡ true)
    → search v (value_spaces v nullable id_of) pick n pss ≡ unsatisfiable
    → all_met v.runtime env pss ≡ false
search-refutes v env nullable id_of pick n pss cased adm columns h =
    search-unsatisfiable v env adm (value_spaces v nullable id_of)
      (value_spaces-IsSound v cased nullable id_of env columns) pick n pss h
