-- ===== src/Smt/Normalizer/Lift.antt =====
-- src/parseval/smt/csp.py, `_lift` and `_split`: CASE operands are lifted out of a predicate.
pub mod Laws
pub mod Sound
pub mod Split
use par_seval.Common.{
  ℕ, zero, suc, ◌+◌, Bool, true, false, not, ◌&&◌, ◌||◌, Option, none, some, List, [], ◌∷◌, ◌++◌,
  map, if◌then◌else◌, ltb, length,
}
use par_seval.Scalar.Term.{
  Operator, Predicate, to_predicate, eq3, lt3, like3, ilike3, is_not_distinct, is_null, is_not_null,
  Scalar, case, call, Scalars, no_scalars, scalars,
}
use par_seval.Smt.Formula.{Formula, known, Formulas, no_formulas, formulas, any_of, both}
use par_seval.Smt.Valuation.{Valuation, is_open, fold_predicate, fold_scalar}
use par_seval.Smt.Normalizer.Attempt.{Attempt, done, unsupported, ◌>>=◌, Wanted, want_true}
use par_seval.Smt.Normalizer.Weights.{rejection}

-- CASE_SPLITS
abbrev pub case_splits : ℕ
case_splits = 16

-- A condition with the term that it selects.
abbrev pub Choice : Type 0 → Type 0
Choice A = Formula × A

unfoldable pub restrict : {A : Type 0} → Formula → List (Choice A) → List (Choice A)
restrict c [] = []
restrict c ((extra, a) ∷ rest) = (both c extra, a) ∷ restrict c rest

unfoldable pub append_scalar : Scalars → Scalar → Scalars
append_scalar no_scalars t = scalars t no_scalars
append_scalar (scalars a args) t = scalars a (append_scalar args t)

-- One chosen prefix of the children with each choice for the next one.
unfoldable pub extend_one : Formula → Scalars → List (Choice Scalar) → List (Choice Scalars)
unfolding append_scalar
extend_one c children [] = []
extend_one c children ((extra, t) ∷ rest) =
    (both c extra, append_scalar children t) ∷ extend_one c children rest

unfoldable pub extend_all : List (Choice Scalars) → List (Choice Scalar) → List (Choice Scalars)
unfolding extend_one
extend_all [] choices = []
extend_all ((c, children) ∷ rest) choices = extend_one c children choices ++ extend_all rest choices

unfoldable pub limited : {A : Type 0} → List A → Attempt (List A)
limited xs = if ltb case_splits (length xs) then unsupported else done xs

-- The scalar children; a predicate child is never a CASE or a call, so it lifts to itself.
unfoldable pub operands : Predicate → Scalars
operands (to_predicate a) = scalars a no_scalars
operands (eq3 a b) = scalars a (scalars b no_scalars)
operands (lt3 a b) = scalars a (scalars b no_scalars)
operands (like3 a b) = scalars a (scalars b no_scalars)
operands (ilike3 a b) = scalars a (scalars b no_scalars)
operands (is_not_distinct a b) = scalars a (scalars b no_scalars)
operands (is_null a) = scalars a no_scalars
operands (is_not_null a) = scalars a no_scalars
operands p = no_scalars

unfoldable pub with_operands : Predicate → Scalars → Predicate
with_operands (to_predicate _) (scalars a no_scalars) = to_predicate a
with_operands (eq3 _ _) (scalars a (scalars b no_scalars)) = eq3 a b
with_operands (lt3 _ _) (scalars a (scalars b no_scalars)) = lt3 a b
with_operands (like3 _ _) (scalars a (scalars b no_scalars)) = like3 a b
with_operands (ilike3 _ _) (scalars a (scalars b no_scalars)) = ilike3 a b
with_operands (is_not_distinct _ _) (scalars a (scalars b no_scalars)) = is_not_distinct a b
with_operands (is_null _) (scalars a no_scalars) = is_null a
with_operands (is_not_null _) (scalars a no_scalars) = is_not_null a
with_operands p _ = p

module _ (v : Valuation) where
  -- `self.v.node(type(node), children, node.payload)` for each alternative.
  unfoldable pub fold_calls : Operator → List (Choice Scalars) → List (Choice Scalar)
  fold_calls op [] = []
  fold_calls op ((c, args) ∷ rest) = (c, fold_scalar v (call op args)) ∷ fold_calls op rest

  module _ (truth : Predicate → Wanted → Attempt Formula) where
    unfoldable mutual
      unfolding restrict extend_all limited fold_calls

      pub lift : Scalar → Attempt (List (Choice Scalar))
      lift (case c t e) =
          let arms = (do
            selected ← truth c want_true
            rejected ← rejection truth c
            p ← lift t
            q ← lift e
            done (restrict selected p ++ restrict rejected q)) in
          if is_open v (case c t e) then arms else done ((known true, case c t e) ∷ [])
      lift (call op args) =
          let alternatives =
            lift_children ((known true, no_scalars) ∷ []) args >>= λ cs. done (fold_calls op cs) in
          if is_open v (call op args) then alternatives else done ((known true, call op args) ∷ [])
      lift t = done ((known true, t) ∷ [])

      pub lift_children : List (Choice Scalars) → Scalars → Attempt (List (Choice Scalars))
      lift_children chosen no_scalars = done chosen
      lift_children chosen (scalars a args) = do
        choices ← lift a
        more ← limited (extend_all chosen choices)
        lift_children more args

    -- `all(len(options) == 1 for options in lifted)`
    unfoldable pub nothing_lifted : Scalars → Attempt Bool
    unfolding lift
    nothing_lifted no_scalars = done true
    nothing_lifted (scalars a args) = do
      choices ← lift a
      rest ← nothing_lifted args
      done (elim choices [ [] ↦ false | c ∷ cs ↦ elim cs [ [] ↦ rest | _ ↦ false ] ])

    unfoldable pub alternatives : Predicate → Wanted → List (Choice Scalars) → Attempt Formulas
    unfolding with_operands
    alternatives p o [] = done no_formulas
    alternatives p o ((c, args) ∷ rest) = do
      f ← truth (fold_predicate v (with_operands p args)) o
      fs ← alternatives p o rest
      done (formulas (both c f) fs)

    unfoldable pub split_apart : Predicate → Wanted → Attempt Formula
    unfolding alternatives
    split_apart p o = do
      chosen ← lift_children ((known true, no_scalars) ∷ []) (operands p)
      fs ← alternatives p o chosen
      done (any_of fs)

    -- `_split(term, outcome)`
    unfoldable pub split : Predicate → Wanted → Attempt Formula
    unfolding nothing_lifted operands split_apart
    split p o =
        nothing_lifted (operands p) >>= λ alone. if alone then unsupported else split_apart p o
