-- ===== src/Terms/Binding.antt =====
-- src/parseval/terms/binding.py: shifting, substitution and swapping of De Bruijn variables in the
-- two namespaces of rows and relations. A term is the tree an arena id stands for.
pub mod Indices
pub mod Shift
pub mod Substitute
pub mod Swap
use par_seval.Common.{
  ℕ, zero, suc, ◌+◌, ◌-◌, Bool, true, false, ◌&&◌, ◌||◌, Option, none, some, if◌then◌else◌, ◌==◌,
  ltb,
}
use par_seval.Common.Int.{ℤ, pos, negsuc, ◌+ℤ◌}
use par_seval.Common.Options.{◌>>=◌}

-- The node types that bind a variable in one of their children, and all others.
pub data Kind : Type 0 where
  row_lambda let_rel plain : Kind

-- Variables carry their depth and, for rows, their sort; a node its key and its children.
mutual
  pub data Term : Type 0 where
    row_var : ℕ → ℕ → Term
    rel_var : ℕ → Term
    node : Kind → ℕ → Terms → Term

  pub data Terms : Type 0 where
    no_terms : Terms
    terms : Term → Terms → Terms

unfoldable pub row_binders_in_child : Kind → ℕ → ℕ
row_binders_in_child row_lambda zero = 1
row_binders_in_child _ _ = 0

unfoldable pub relation_binders_in_child : Kind → ℕ → ℕ
relation_binders_in_child let_rel (suc zero) = 1
relation_binders_in_child _ _ = 0

-- A moved depth below the cutoff is an error, whatever the sign of the delta.
unfoldable pub landed : ℕ → ℤ → Option ℕ
landed cutoff (pos depth) = if ltb depth cutoff then none else some depth
landed cutoff (negsuc k) = none

unfoldable pub moved : ℤ → ℕ → ℕ → Option ℕ
unfolding landed ◌+ℤ◌
moved delta cutoff depth = landed cutoff (pos depth +ℤ delta)

-- A variable below the cutoff is bound and stays.
unfoldable pub shift_depth : ℤ → ℕ → ℕ → Option ℕ
unfolding moved
shift_depth delta cutoff depth = if ltb depth cutoff then some depth else moved delta cutoff depth

unfoldable mutual
  unfolding shift_depth row_binders_in_child relation_binders_in_child

  pub shift_vars : ℤ → ℤ → ℕ → ℕ → Term → Option Term
  shift_vars dr dl rc lc (row_var d s) = do e ← shift_depth dr rc d; some (row_var e s)
  shift_vars dr dl rc lc (rel_var d) = do e ← shift_depth dl lc d; some (rel_var e)
  shift_vars dr dl rc lc (node k l ts) = do
    us ← shift_children dr dl rc lc k 0 ts
    some (node k l us)

  pub shift_children : ℤ → ℤ → ℕ → ℕ → Kind → ℕ → Terms → Option Terms
  shift_children dr dl rc lc k i no_terms = some no_terms
  shift_children dr dl rc lc k i (terms t ts) = do
    u ← shift_vars dr dl (rc + row_binders_in_child k i) (lc + relation_binders_in_child k i) t
    us ← shift_children dr dl rc lc k (suc i) ts
    some (terms u us)

-- What becomes of a row variable when the one at `target` is replaced.
pub data Fate : Type 0 where
  replaced : Fate
  renumbered : ℕ → Fate

unfoldable pub fate : ℕ → ℕ → Fate
fate target depth =
    if depth == target
    then replaced
    else if ltb target depth
    then renumbered (depth - 1)
    else renumbered depth

module _ (replacement : Term) (replacement_sort : ℕ) (depth : ℕ) where
  unfoldable mutual
    unfolding fate row_binders_in_child relation_binders_in_child

    pub substitute_row : ℕ → ℕ → Term → Option Term
    substitute_row b c (row_var d s) = elim (fate (depth + b) d) [
      | replaced ↦
          if s == replacement_sort then shift_vars (pos b) (pos c) 0 0 replacement else none
      | renumbered e ↦ some (row_var e s)
    ]
    substitute_row b c (rel_var d) = some (rel_var d)
    substitute_row b c (node k l ts) = do us ← substitute_children b c k 0 ts; some (node k l us)

    pub substitute_children : ℕ → ℕ → Kind → ℕ → Terms → Option Terms
    substitute_children b c k i no_terms = some no_terms
    substitute_children b c k i (terms t ts) = do
      u ← substitute_row (b + row_binders_in_child k i) (c + relation_binders_in_child k i) t
      us ← substitute_children b c k (suc i) ts
      some (terms u us)

unfoldable pub swapped : ℕ → ℕ → ℕ
swapped lower depth =
    if depth == lower then depth + 1 else if depth == lower + 1 then depth - 1 else depth

unfoldable mutual
  unfolding swapped row_binders_in_child

  pub swap_row_vars : ℕ → Term → Term
  swap_row_vars lower (row_var d s) = row_var (swapped lower d) s
  swap_row_vars lower (rel_var d) = rel_var d
  swap_row_vars lower (node k l ts) = node k l (swap_children lower k 0 ts)

  pub swap_children : ℕ → Kind → ℕ → Terms → Terms
  swap_children lower k i no_terms = no_terms
  swap_children lower k i (terms t ts) =
      terms (swap_row_vars (lower + row_binders_in_child k i) t) (swap_children lower k (suc i) ts)
