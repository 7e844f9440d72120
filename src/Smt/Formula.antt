-- ===== src/Smt/Formula.antt =====
-- src/parseval/smt/csp.py: atoms, formulas, and the simplifying constructors `_and` and `_or`.
pub mod Laws
use par_seval.Common.{
  ℕ, Bool, true, false, not, ◌&&◌, ◌||◌, Option, none, some, List, [], ◌∷◌, if◌then◌else◌, ◌==◌,
}
use par_seval.Scalar.Outcome.{Outcome, returned, failed}
use par_seval.Scalar.Term.{Value, bool, int, text, Predicate}
use par_seval.Scalar.Like.{like}
use par_seval.Scalar.Evaluate.{
  Runtime, Assignment, same_value, less, not_distinct, is_none, evaluate_predicate,
}

-- `Atom.op` with `Atom.value`.
pub data Test : Type 0 where
  eq ne lt le gt ge : Value → Test
  is_null not_null : Test
  matches not_matches : Value → Test
  eq_var ne_var : ℕ → Test
  passes : Predicate → Test

mutual
  pub data Formula : Type 0 where
    known : Bool → Formula
    atom : ℕ → Test → Formula
    conjunction disjunction : Formulas → Formula

  pub data Formulas : Type 0 where
    no_formulas : Formulas
    formulas : Formula → Formulas → Formulas

unfoldable pub has_known : Bool → Formulas → Bool
has_known b no_formulas = false
has_known true (formulas (known true) fs) = true
has_known false (formulas (known false) fs) = true
has_known b (formulas f fs) = has_known b fs

unfoldable pub without_known : Bool → Formulas → Formulas
without_known b no_formulas = no_formulas
without_known true (formulas (known true) fs) = without_known true fs
without_known false (formulas (known false) fs) = without_known false fs
without_known b (formulas f fs) = formulas f (without_known b fs)

unfoldable pub join_all : Formulas → Formula
join_all no_formulas = known true
join_all (formulas f no_formulas) = f
join_all fs = conjunction fs

unfoldable pub join_any : Formulas → Formula
join_any no_formulas = known false
join_any (formulas f no_formulas) = f
join_any fs = disjunction fs

-- `_and(*items)`
unfoldable pub all_of : Formulas → Formula
unfolding has_known without_known join_all
all_of fs = if has_known false fs then known false else join_all (without_known true fs)

-- `_or(*items)`
unfoldable pub any_of : Formulas → Formula
unfolding has_known without_known join_any
any_of fs = if has_known true fs then known true else join_any (without_known false fs)

abbrev pub both : Formula → Formula → Formula
both f g = all_of (formulas f (formulas g no_formulas))

abbrev pub either : Formula → Formula → Formula
either f g = any_of (formulas f (formulas g no_formulas))

abbrev pub is_returned_true : Outcome Bool → Bool
is_returned_true (returned true) = true
is_returned_true _ = false

abbrev pub is_returned_false : Outcome Bool → Bool
is_returned_false (returned false) = true
is_returned_false _ = false

-- `like` of src/parseval/instance/domain.py: only texts match.
unfoldable pub matches_like : Value → Value → Bool
matches_like (text a) (text p) = is_returned_true (like false a p)
matches_like _ _ = false

-- What an atom says of a non-NULL value.
unfoldable pub value_passes : Test → Value → Bool
value_passes (eq v) c = same_value c v
value_passes (ne v) c = not (same_value c v)
value_passes (lt v) c = is_returned_true (less c v)
value_passes (le v) c = is_returned_false (less v c)
value_passes (gt v) c = is_returned_true (less v c)
value_passes (ge v) c = is_returned_false (less c v)
value_passes (matches p) c = matches_like c p
value_passes (not_matches p) c = not (matches_like c p)
value_passes _ c = true

abbrev pub some_passes : Test → Option Value → Bool
some_passes t none = false
some_passes t (some c) = value_passes t c

abbrev pub is_true_outcome : Outcome (Option Bool) → Bool
is_true_outcome (returned (some true)) = true
is_true_outcome _ = false

module _ (r : Runtime) (env : Assignment) where
  -- The meaning of an atom under values of the inputs; a comparison with NULL does not hold.
  unfoldable pub atom_holds : ℕ → Test → Bool
  unfolding value_passes is_none
  atom_holds x is_null = is_none (env x)
  atom_holds x not_null = not (is_none (env x))
  atom_holds x (eq_var y) = not_distinct (env x) (env y)
  atom_holds x (ne_var y) = not (not_distinct (env x) (env y))
  atom_holds x (passes p) = is_true_outcome (evaluate_predicate r env p)
  atom_holds x (eq v) = some_passes (eq v) (env x)
  atom_holds x (ne v) = some_passes (ne v) (env x)
  atom_holds x (lt v) = some_passes (lt v) (env x)
  atom_holds x (le v) = some_passes (le v) (env x)
  atom_holds x (gt v) = some_passes (gt v) (env x)
  atom_holds x (ge v) = some_passes (ge v) (env x)
  atom_holds x (matches v) = some_passes (matches v) (env x)
  atom_holds x (not_matches v) = some_passes (not_matches v) (env x)

  unfoldable mutual
    unfolding atom_holds

    pub holds : Formula → Bool
    holds (known b) = b
    holds (atom x t) = atom_holds x t
    holds (conjunction fs) = all_hold fs
    holds (disjunction fs) = any_holds fs

    pub all_hold : Formulas → Bool
    all_hold no_formulas = true
    all_hold (formulas f fs) = holds f && all_hold fs

    pub any_holds : Formulas → Bool
    any_holds no_formulas = false
    any_holds (formulas f fs) = holds f || any_holds fs
