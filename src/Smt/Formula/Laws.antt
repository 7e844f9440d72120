-- ===== src/Smt/Formula/Laws.antt =====
-- The simplifying constructors of src/parseval/smt/csp.py keep the meaning of what they join.
use par_seval.Common.{◌≡◌, refl, sym, ◌∙◌, true, false, ◌&&◌, ◌||◌, Bool-cases, inl, inr, arith}
use par_seval.Scalar.Evaluate.{Runtime, Assignment}
use par_seval.Smt.Formula.{
  Formula, known, Formulas, no_formulas, formulas, has_known, without_known, join_all, join_any,
  all_of, any_of, both, either, holds, all_hold, any_holds,
}

module _ (r : Runtime) (env : Assignment) where
  has_known-false : (fs : Formulas) → has_known false fs ≡ true → all_hold r env fs ≡ false
  unfolding has_known holds
  has_known-false no_formulas h = cc
  has_known-false (formulas (known true) fs) h = has_known-false fs h
  has_known-false (formulas (known false) fs) h = refl
  has_known-false (formulas f fs) h = ground (arith, has_known-false fs)

  has_known-true : (fs : Formulas) → has_known true fs ≡ true → any_holds r env fs ≡ true
  unfolding has_known holds
  has_known-true no_formulas h = cc
  has_known-true (formulas (known true) fs) h = refl
  has_known-true (formulas (known false) fs) h = has_known-true fs h
  has_known-true (formulas f fs) h = ground (arith, has_known-true fs)

  without_known-true : (fs : Formulas) → all_hold r env (without_known true fs) ≡ all_hold r env fs
  unfolding without_known holds
  without_known-true no_formulas = refl
  without_known-true (formulas (known true) fs) = without_known-true fs
  without_known-true (formulas f fs) = ground (arith, without_known-true fs)

  without_known-false :
      (fs : Formulas) → any_holds r env (without_known false fs) ≡ any_holds r env fs
  unfolding without_known holds
  without_known-false no_formulas = refl
  without_known-false (formulas (known false) fs) = without_known-false fs
  without_known-false (formulas f fs) = ground (arith, without_known-false fs)

  holds-join_all : (fs : Formulas) → holds r env (join_all fs) ≡ all_hold r env fs
  unfolding join_all holds
  holds-join_all no_formulas = refl
  holds-join_all (formulas f no_formulas) = ground arith
  holds-join_all (formulas f (formulas g fs)) = refl

  holds-join_any : (fs : Formulas) → holds r env (join_any fs) ≡ any_holds r env fs
  unfolding join_any holds
  holds-join_any no_formulas = refl
  holds-join_any (formulas f no_formulas) = ground arith
  holds-join_any (formulas f (formulas g fs)) = refl

  -- The simplified conjunction of formulas holds exactly when all of them hold.
  pub holds-all_of : (fs : Formulas) → holds r env (all_of fs) ≡ all_hold r env fs
  unfolding all_of
  holds-all_of fs = elim (Bool-cases (has_known false fs)) [
    | inl e ↦ rw e (unfold holds in sym (has_known-false fs e))
    | inr e ↦ rw e (holds-join_all (without_known true fs) ∙ without_known-true fs)
  ]

  -- The simplified disjunction of formulas holds exactly when one of them holds.
  pub holds-any_of : (fs : Formulas) → holds r env (any_of fs) ≡ any_holds r env fs
  unfolding any_of
  holds-any_of fs = elim (Bool-cases (has_known true fs)) [
    | inl e ↦ rw e (unfold holds in sym (has_known-true fs e))
    | inr e ↦ rw e (holds-join_any (without_known false fs) ∙ without_known-false fs)
  ]

  pub holds-both : (f g : Formula) → holds r env (both f g) ≡ holds r env f && holds r env g
  holds-both f g = holds-all_of (formulas f (formulas g no_formulas)) ∙ unfold holds in ground arith

  pub holds-either : (f g : Formula) → holds r env (either f g) ≡ holds r env f || holds r env g
  holds-either f g =
      holds-any_of (formulas f (formulas g no_formulas)) ∙ unfold holds in ground arith
