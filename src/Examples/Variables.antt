-- ===== src/Examples/Variables.antt =====
-- Runs of src/parseval/terms/binding.py on a lambda over rows.
use par_seval.Common.{ℕ, zero, suc, ◌+◌, ◌≡◌, ◌≢◌, refl, none, some, List, [], ◌∷◌, arith}
use par_seval.Common.Int.{pos, negsuc, ◌-ℤ◌}
use par_seval.Terms.Binding.{
  row_lambda, plain, Term, row_var, rel_var, node, no_terms, terms, shift_vars, substitute_row,
  swap_row_vars,
}
use par_seval.Terms.Binding.Indices.{Semantics, push, denote, Follows}
use par_seval.Terms.Binding.Shift.{denote-shift_vars, shift_vars_back}
use par_seval.Terms.Binding.Substitute.{Inserts, denote-substitute_row}
use par_seval.Terms.Binding.Swap.{Exchanges, denote-swap_row_vars, swap_row_vars_twice}

-- Rows are numbers, and a node means the sum of its children at the row 7 and the relation 0.
abbrev sum_children : List (ℕ → ℕ → ℕ) → ℕ
sum_children [] = 0
sum_children (f ∷ fs) = f 7 0 + sum_children fs

abbrev sums : Semantics
sums = record { Row = ℕ; Meaning = ℕ; of_row = λ r. r; interpret = λ k l fs. sum_children fs }

-- A lambda whose body pairs its own row with the outer row 0 and the relation 0.
abbrev body : Term
body = node plain 1 (terms (row_var 0 0) (terms (row_var 1 0) (terms (rel_var 0) no_terms)))

abbrev lambda : Term
lambda = node row_lambda 0 (terms body no_terms)

abbrev shifted_lambda : Term
shifted_lambda = node row_lambda 0 (
    terms (node plain 1 (terms (row_var 0 0) (terms (row_var 3 0) (terms (rel_var 0) no_terms))))
      no_terms)

abbrev before_shift : ℕ → ℕ
before_shift n = n + 12

abbrev after_shift : ℕ → ℕ
after_shift n = n + 10

shifted : shift_vars (pos 2) (pos 0) 0 0 lambda ≡ some shifted_lambda
unfolding shift_vars
shifted = refl

rows_follow : Follows (pos 2) 0 before_shift after_shift
rows_follow = (λ n h. omega arith, λ n h. omega arith)

relations_follow : Follows (pos 0) 0 before_shift before_shift
relations_follow = (λ n h. omega arith, λ n h. omega arith)

denote-shift_vars_example :
    denote sums after_shift before_shift shifted_lambda
    ≡ denote sums before_shift before_shift lambda
denote-shift_vars_example =
    denote-shift_vars sums (pos 2) (pos 0) 0 0 lambda shifted_lambda before_shift after_shift
      before_shift before_shift rows_follow relations_follow shifted

shift_vars_back_example :
    (t : Term) × (shift_vars (pos 2) (pos 0) 0 0 lambda ≡ some t)
    × (shift_vars (pos 0 -ℤ pos 2) (pos 0 -ℤ pos 0) 0 0 t ≡ some lambda)
shift_vars_back_example = shift_vars_back 2 0 0 0 lambda

-- The row 1 of the outer rows would fall below the cutoff 1.
crossing : shift_vars (negsuc 0) (pos 0) 1 0 (row_var 1 0) ≡ none
unfolding shift_vars
crossing = refl

-- The row 0 is replaced by the variable 4 of the outer rows.
abbrev substituted_lambda : Term
substituted_lambda = node row_lambda 0 (
    terms (node plain 1 (terms (row_var 0 0) (terms (row_var 5 0) (terms (rel_var 0) no_terms))))
      no_terms)

substituted : substitute_row (row_var 4 0) 0 0 0 0 lambda ≡ some substituted_lambda
unfolding substitute_row shift_vars
substituted = refl

abbrev outer_rows : ℕ → ℕ
outer_rows n = n + 10

row_inserted : Inserts 0 14 (push 1 14 outer_rows) outer_rows
row_inserted = (λ n h. omega arith, refl, λ n h. refl)

replacement_means : denote sums outer_rows before_shift (row_var 4 0) ≡ 14
unfolding denote
replacement_means = refl

denote-substitute_row_example :
    denote sums outer_rows before_shift substituted_lambda
    ≡ denote sums (push 1 14 outer_rows) before_shift lambda
denote-substitute_row_example =
    denote-substitute_row sums (row_var 4 0) 0 0 14 lambda substituted_lambda (push 1 14 outer_rows)
      outer_rows before_shift replacement_means row_inserted substituted

abbrev swapped_rows : ℕ → ℕ
swapped_rows zero = 1
swapped_rows (suc zero) = 0
swapped_rows (suc (suc n)) = suc (suc n)

swapped_elsewhere : (n : ℕ) → n ≢ 0 → n ≢ 1 → swapped_rows n ≡ n
swapped_elsewhere zero e f = absurd (e refl)
swapped_elsewhere (suc zero) e f = absurd (f refl)
swapped_elsewhere (suc (suc n)) e f = refl

rows_exchanged : Exchanges sums 0 (λ n. n) swapped_rows
rows_exchanged = (refl, refl, swapped_elsewhere)

denote-swap_row_vars_example :
    denote sums swapped_rows before_shift (swap_row_vars 0 lambda)
    ≡ denote sums (λ n. n) before_shift lambda
denote-swap_row_vars_example =
    denote-swap_row_vars sums 0 lambda (λ n. n) swapped_rows before_shift rows_exchanged

swap_row_vars_twice_example : swap_row_vars 0 (swap_row_vars 0 lambda) ≡ lambda
swap_row_vars_twice_example = swap_row_vars_twice 0 lambda
