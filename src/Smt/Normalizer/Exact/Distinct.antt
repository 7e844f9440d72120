-- ===== src/Smt/Normalizer/Exact/Distinct.antt =====
-- `_not_distinct` of src/parseval/smt/csp.py on two operands.
use par_seval.Common.{
  ℕ, ◌≡◌, refl, sym, ap, ap₂, ◌∙◌, Bool, false, not, ◌&&◌, ◌||◌, arith, Option, none, some,
}
use par_seval.Scalar.Term.{Value}
use par_seval.Scalar.Evaluate.{Runtime, Assignment, not_distinct, is_none}
use par_seval.Scalar.Comparisons.{same_value_comm}
use par_seval.Smt.Formula.{
  Formula, atom, no_formulas, formulas, any_of, both, ne, is_null, not_null, eq_var, ne_var, holds,
  atom_holds, value_passes,
}
use par_seval.Smt.Formula.Laws.{holds-any_of, holds-both, holds-either}
use par_seval.Smt.Normalizer.Attempt.{
  done, done-injective, Wanted, want_true, want_false, want_unknown,
}
use par_seval.Smt.Normalizer.Truth.{
  Operand, input, constant, distinct_from_constant, distinct_inputs, distinct_operands,
}
use par_seval.Smt.Normalizer.Exact.Tables.{operand_value}

-- The outcome TRUE or FALSE of a test that is never UNKNOWN.
abbrev pub is_decided : Wanted → Bool → Bool
is_decided want_true b = b
is_decided _ b = not b

pub not_distinct_comm : (a b : Option Value) → not_distinct a b ≡ not_distinct b a
unfolding not_distinct
not_distinct_comm none none = refl
not_distinct_comm (some a) (some b) = same_value_comm a b
not_distinct_comm none (some b) = refl
not_distinct_comm (some a) none = refl

module _ (r : Runtime) (env : Assignment) where
  from_constant :
      (o : Wanted) (a : ℕ) (m c : Option Value)
      → env a ≡ m
      → holds r env (distinct_from_constant o a c) ≡ is_decided o (not_distinct m c)
  unfolding distinct_from_constant holds atom_holds value_passes not_distinct is_none
  from_constant want_true a none none e = rw e refl
  from_constant want_true a (some m) none e = rw e refl
  from_constant want_true a none (some c) e = rw e refl
  from_constant want_true a (some m) (some c) e = rw e refl
  from_constant want_false a none none e = rw e refl
  from_constant want_false a (some m) none e = rw e refl
  from_constant want_false a none (some c) e =
      holds-either r env (atom a is_null) (atom a (ne c)) ∙ rw e refl
  from_constant want_false a (some m) (some c) e =
      holds-either r env (atom a is_null) (atom a (ne c)) ∙ rw e refl
  from_constant want_unknown a none none e = rw e refl
  from_constant want_unknown a (some m) none e = rw e refl
  from_constant want_unknown a none (some c) e =
      holds-either r env (atom a is_null) (atom a (ne c)) ∙ rw e refl
  from_constant want_unknown a (some m) (some c) e =
      holds-either r env (atom a is_null) (atom a (ne c)) ∙ rw e refl

  -- `both(both(atom a not_null, atom b not_null), atom a t)`
  both_known :
      (f g h : Formula)
      → holds r env (both (both f g) h) ≡ (holds r env f && holds r env g) && holds r env h
  both_known f g h =
      holds-both r env (both f g) h ∙ ap (λ b. b && holds r env h) (holds-both r env f g)

  equal-sum :
      (m k : Option Value)
      → (is_none m && is_none k) || ((not (is_none m) && not (is_none k)) && not_distinct m k)
        ≡ not_distinct m k
  unfolding not_distinct is_none
  equal-sum none none = refl
  equal-sum none (some k) = refl
  equal-sum (some m) none = refl
  equal-sum (some m) (some k) = refl

  apart-sum :
      (m k : Option Value)
      → (is_none m && not (is_none k))
          || ((not (is_none m) && is_none k)
              || (((not (is_none m) && not (is_none k)) && not (not_distinct m k)) || false))
        ≡ not (not_distinct m k)
  unfolding not_distinct is_none
  apart-sum none none = refl
  apart-sum none (some k) = refl
  apart-sum (some m) none = refl
  apart-sum (some m) (some k) = ground arith

  of_inputs_true :
      (a b : ℕ) → holds r env (distinct_inputs want_true a b) ≡ not_distinct (env a) (env b)
  unfolding distinct_inputs
  of_inputs_true a b =
      holds-either r env (both (atom a is_null) (atom b is_null))
        (both (both (atom a not_null) (atom b not_null)) (atom a (eq_var b)))
      ∙ ap₂ ◌||◌ (holds-both r env (atom a is_null) (atom b is_null))
          (both_known (atom a not_null) (atom b not_null) (atom a (eq_var b)))
      ∙ unfold holds atom_holds in equal-sum (env a) (env b)

  three :
      (f g h : Formula)
      → holds r env (any_of (formulas f (formulas g (formulas h no_formulas))))
        ≡ holds r env f || (holds r env g || (holds r env h || false))
  three f g h =
      holds-any_of r env (formulas f (formulas g (formulas h no_formulas))) ∙ unfold holds in refl

  of_inputs_false :
      (a b : ℕ)
      → holds r env (
          any_of (
            formulas (both (atom a is_null) (atom b not_null)) (
              formulas (both (atom a not_null) (atom b is_null)) (
                formulas
                  (both (both (atom a not_null) (atom b not_null)) (atom a (ne_var b)))
                  no_formulas))))
        ≡ not (not_distinct (env a) (env b))
  of_inputs_false a b =
      three (both (atom a is_null) (atom b not_null)) (both (atom a not_null) (atom b is_null))
        (both (both (atom a not_null) (atom b not_null)) (atom a (ne_var b)))
      ∙ ap₂ ◌||◌ (holds-both r env (atom a is_null) (atom b not_null)) (
          ap₂ ◌||◌ (holds-both r env (atom a not_null) (atom b is_null)) (
            ap (λ c. c || false)
              (both_known (atom a not_null) (atom b not_null) (atom a (ne_var b)))))
      ∙ unfold holds atom_holds in apart-sum (env a) (env b)

  of_inputs :
      (o : Wanted) (a b : ℕ)
      → holds r env (distinct_inputs o a b) ≡ is_decided o (not_distinct (env a) (env b))
  of_inputs want_true a b = of_inputs_true a b
  of_inputs want_false a b = unfold distinct_inputs in of_inputs_false a b
  of_inputs want_unknown a b = unfold distinct_inputs in of_inputs_false a b

  -- The formula decides whether the operands are distinct.
  pub distinct_operands-decided :
      (o : Wanted) (a b : Operand) (f : Formula)
      → distinct_operands o a b ≡ done f
      → holds r env f ≡ is_decided o (not_distinct (operand_value env a) (operand_value env b))
  unfolding distinct_operands
  distinct_operands-decided o (input a) (constant c) f h =
      ap (holds r env) (sym (done-injective h)) ∙ from_constant o a (env a) c refl
  distinct_operands-decided o (constant c) (input a) f h =
      ap (holds r env) (sym (done-injective h))
      ∙ from_constant o a (env a) c refl
      ∙ ap (is_decided o) (not_distinct_comm (env a) c)
  distinct_operands-decided o (input a) (input b) f h =
      ap (holds r env) (sym (done-injective h)) ∙ of_inputs o a b
  distinct_operands-decided o (constant a) (constant b) f h = cc
