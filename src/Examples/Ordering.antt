-- ===== src/Examples/Ordering.antt =====
-- Runs of src/parseval/uexpr/order.py on `ORDER BY … LIMIT 5 OFFSET 2` under a projection.
use par_seval.Common.{ℕ, suc, ◌≡◌, refl, true, false, none, some, [], ◌∷◌}
use par_seval.Common.Int.{pos}
use par_seval.Uexpr.Order.{
  literal, int, OrderKeyTerm, Term, relation, seq_map, take_rows, drop_rows, order_by,
  OrderNormalForm, analyze_order_normal_form, normalize_order_term, rebuild_normal,
}
use par_seval.Uexpr.Order.Meaning.{Semantics, denote, denote-normalize_order_term}
use par_seval.Uexpr.Order.Canonical.{analyze-rebuild_normal, normalize_order_term_idem}

-- Every relation holds the rows 3, 1 and 2, sorting keeps them, and functions add nothing.
abbrev three_rows : Semantics
three_rows = record {
  Env = ℕ;
  Row = ℕ;
  bind = λ env rows. env;
  relation_rows = λ env r. 3 ∷ 1 ∷ 2 ∷ [];
  sequence_rows = λ env r. [];
  sort_rows = λ env keys rows. rows;
  apply = λ env f row. suc row;
  computed_bound = λ env c. 0;
}

abbrev one_key : OrderKeyTerm
one_key = record {
  function = 0;
  spec = record { descending = true; nulls_first = false; collation = none };
}

abbrev limited : Term
limited =
    seq_map
      (take_rows (literal (int (pos 1)))
        (drop_rows (literal (int (pos 1))) (order_by (relation 0) (one_key ∷ []))))
      4

denote-normalize_order_term_example :
    denote three_rows 0 (normalize_order_term limited) ≡ denote three_rows 0 limited
denote-normalize_order_term_example = denote-normalize_order_term three_rows 0 limited

normalize_order_term_idem_example :
    normalize_order_term (normalize_order_term limited) ≡ normalize_order_term limited
normalize_order_term_idem_example = normalize_order_term_idem limited

abbrev limited_form : OrderNormalForm
limited_form = record {
  source = relation 0;
  keys = one_key ∷ [];
  offset = 1;
  fetch = some 1;
  mapper = some 4;
  bindings = [];
}

analyze-rebuild_normal_example :
    analyze_order_normal_form (rebuild_normal limited_form) ≡ some limited_form
analyze-rebuild_normal_example = analyze-rebuild_normal limited_form refl
