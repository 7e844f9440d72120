-- ===== src/Smt/Search/Solve/Requirements.antt =====
-- What the results of `search` in src/parseval/smt/csp.py say of the requirements.
use par_seval.Common.{
  ℕ, suc, ◌≡◌, refl, sym, ap, ◌∙◌, Bool, true, false, Bool-cases, inl, inr, arith, Option, none,
  some, List, [], ◌∷◌,
}
use mathlib.Core.Path.{subst}
use par_seval.Scalar.Outcome.{Outcome, returned}
use par_seval.Scalar.Term.{Predicate}
use par_seval.Scalar.Evaluate.{Assignment, evaluate_predicate}
use par_seval.Smt.Formula.{Formula, Formulas, all_of, holds, all_hold, any_holds, is_true_outcome}
use par_seval.Smt.Formula.Laws.{holds-all_of, holds-any_of}
use par_seval.Smt.Valuation.{Valuation}
use par_seval.Smt.Valuation.Laws.{IsAdmissible}
use par_seval.Smt.Normalizer.Attempt.{
  Attempt, done, unsupported, exhausted, key_error, >>=-eq-done, done-injective, want_true,
  is_outcome,
}
use par_seval.Smt.Normalizer.Truth.{truth}
use par_seval.Smt.Normalizer.Exact.Whole.{truth-exact}
use par_seval.Smt.Links.Consistency.{AllAgree}
use par_seval.Smt.Search.{Spaces, State, apply}
use par_seval.Smt.Search.Measure.{weigh}
use par_seval.Smt.Search.Sound.{IsSound, AllOpen, Satisfies, Kept, apply-Kept}
use par_seval.Smt.Search.Solve.{
  Tally, Picks, Answer, found, nothing, too_deep, overridden, solve, any_true, all_met,
  unsatisfiable, alternatives, every_requirement, empty_state, first_tally, report, solve_from,
  search_formulas, search,
}
use par_seval.Smt.Search.Solve.Unsatisfiable.{Allows, solve-Allows}

module _ (v : Valuation) (env : Assignment) (adm : IsAdmissible v env) where
  true-outcome : (o : Outcome (Option Bool)) → is_true_outcome o ≡ true → o ≡ returned (some true)
  true-outcome o h = ground arith

  -- The formula of a predicate that is TRUE holds.
  truth-holds :
      (n : ℕ) (p : Predicate) (f : Formula)
      → truth v n p want_true ≡ done f
      → is_true_outcome (evaluate_predicate v.runtime env p) ≡ true
      → holds v.runtime env f ≡ true
  unfolding is_outcome
  truth-holds n p f h a =
      truth-exact v env adm n p want_true f (some true) h
        (true-outcome (evaluate_predicate v.runtime env p) a)

  alternatives-hold :
      (n : ℕ) (ps : List Predicate) (fs : Formulas)
      → alternatives v n ps ≡ done fs
      → any_true v.runtime env ps ≡ true
      → any_holds v.runtime env fs ≡ true
  unfolding alternatives any_true holds
  alternatives-hold n [] fs h a = cc
  alternatives-hold n (p ∷ ps) fs h a =
      let (f, e, h1) = >>=-eq-done (truth v n p want_true) _ h in
      let (gs, g, h2) = >>=-eq-done (alternatives v n ps) _ h1 in
      subst (λ c. any_holds v.runtime env c ≡ true) (done-injective h2)
        (elim (Bool-cases (is_true_outcome (evaluate_predicate v.runtime env p))) [
          | inl b ↦ rw (truth-holds n p f e b) refl
          | inr b ↦ let i = alternatives-hold n ps gs g (rw b at a) in ground (arith, i)
        ])

  every_requirement-holds :
      (n : ℕ) (pss : List (List Predicate)) (fs : Formulas)
      → every_requirement v n pss ≡ done fs
      → all_met v.runtime env pss ≡ true
      → all_hold v.runtime env fs ≡ true
  unfolding every_requirement all_met holds
  every_requirement-holds n [] fs h a = ap (all_hold v.runtime env) (sym (done-injective h))
  every_requirement-holds n (ps ∷ pss) fs h a =
      let (gs, e, h1) = >>=-eq-done (alternatives v n ps) _ h in
      let (rest, g, h2) = >>=-eq-done (every_requirement v n pss) _ h1 in
      let i : any_true v.runtime env ps ≡ true = ground arith in
      let j = every_requirement-holds n pss rest g (ground arith) in
      subst (λ c. all_hold v.runtime env c ≡ true) (done-injective h2)
        (rw (holds-any_of v.runtime env gs, alternatives-hold n ps gs e i) j)

  module _ (k : Spaces) (ok : IsSound k v.runtime env) (pick : State k → Option Picks) where
    reported :
        (accepts : Picks → Bool) (q : Answer × Tally)
        → Allows k pick accepts q
        → report q ≡ unsatisfiable
        → ⊥
    unfolding report Allows
    reported accepts (found a, t) h e = cc
    reported accepts (nothing, t) h e = cc (rw h at e)
    reported accepts (too_deep, t) h e = cc

    empty-Satisfies : Satisfies k v.runtime env ok (empty_state k)
    empty-Satisfies = record {
      fits = λ x c e. cc;
      agree = unfold AllAgree in tt;
      open_choices = unfold AllOpen in tt;
    }

    solve_from-possible :
        (pss : List (List Predicate)) (o : Option (State k))
        → Kept k v.runtime env ok o
        → solve_from v k pick pss o ≡ unsatisfiable
        → ⊥
    unfolding solve_from Kept
    solve_from-possible pss none h e = h
    solve_from-possible pss (some s) h e =
        let accepts : Picks → Bool = λ a. all_met v.runtime (overridden v.stored a) pss in
        reported accepts (solve k pick accepts (suc (weigh s.choices)) s first_tally)
          (solve-Allows k pick accepts v.runtime env ok (suc (weigh s.choices)) s first_tally h) e

    search_formulas-possible :
        (n : ℕ) (pss : List (List Predicate)) (m : Attempt Formulas)
        → every_requirement v n pss ≡ m
        → all_met v.runtime env pss ≡ true
        → search_formulas v k pick pss m ≡ unsatisfiable
        → ⊥
    unfolding search_formulas
    search_formulas-possible n pss unsupported e a h = cc
    search_formulas-possible n pss exhausted e a h = cc
    search_formulas-possible n pss key_error e a h = cc
    search_formulas-possible n pss (done fs) e a h =
        solve_from-possible pss (apply k (all_of fs) (empty_state k))
          (apply-Kept k v.runtime env ok (all_of fs) (empty_state k) empty-Satisfies
            (holds-all_of v.runtime env fs ∙ every_requirement-holds n pss fs e a))
          h

-- When `search` raises Unsatisfiable, no admissible assignment whose values the spaces promise to
-- track makes an alternative of every requirement TRUE.
pub search-unsatisfiable :
    (v : Valuation) (env : Assignment)
    → IsAdmissible v env
    → (k : Spaces) → IsSound k v.runtime env
    → (pick : State k → Option Picks) (n : ℕ) (pss : List (List Predicate))
    → search v k pick n pss ≡ unsatisfiable
    → all_met v.runtime env pss ≡ false
unfolding search
search-unsatisfiable v env adm k ok pick n pss h = elim (Bool-cases (all_met v.runtime env pss)) [
  | inl e ↦
      absurd
        (search_formulas-possible v env adm k ok pick n pss (every_requirement v n pss) refl e h)
  | inr e ↦ e
]
