-- ===== src/Smt/Search/Domain/Order.antt =====
-- The values of the search of src/parseval/smt/csp.py are ordered.
use par_seval.Scalar.Evaluate.{Runtime}
use par_seval.Scalar.Comparisons.{same_value_iff, same_value_refl}
use par_seval.Scalar.Order.{value_irrefl, value_trans, value_total}
use par_seval.Space.Exact.{IsOrdered}
use par_seval.Smt.Search.Domain.{sql_values}

pub sql_values-IsOrdered : (r : Runtime) → IsOrdered (sql_values r)
sql_values-IsOrdered r = record {
  same_eq = λ a b. (same_value_iff a b).0;
  same_refl = same_value_refl;
  irreflexive = value_irrefl;
  transitive = value_trans;
  total = value_total;
}
