-- ===== src/Smt/Valuation/Sums/Laws.antt =====
-- The multiplicity terms of src/parseval/instance/valuation.py evaluate to what they stand for.
use par_seval.Common.{
  ℕ, zero, suc, ◌≤◌, ◌≡◌, refl, sym, ap, ◌∙◌, inl, inr, Bool, true, false, ◌&&◌, Bool-cases, arith,
  Option, none, some, List, [], ◌∷◌, length, if◌then◌else◌,
}
use mathlib.Core.Path.{subst}
use par_seval.Common.Int.{ℤ, pos, ◌+ℤ◌, +ℤ_assoc, ltb_ℤ}
use par_seval.Scalar.Outcome.{Outcome, returned, >>=-eq-returned, returned-injective}
use par_seval.Scalar.Term.{
  Value, bool, int, add, Predicate, true3, false3, unknown3, lt3, Scalar, literal, parameter, case,
  call, no_scalars, scalars,
}
use par_seval.Scalar.Evaluate.{Assignment, evaluate_predicate, evaluate, select, less}
use par_seval.Smt.Valuation.{Valuation, fold_predicate}
use par_seval.Smt.Valuation.Laws.{IsAdmissible, fold_predicate_sound, fold_scalar_sound}
use par_seval.Smt.Valuation.Sums.{
  zero_term, is_zero_term, drop_zeros, add_two, pair_up, balanced, sum_of, case_of, minimum,
  maximum, is_binary_term,
}

unfoldable pub sum : List ℤ → ℤ
sum [] = pos 0
sum (n ∷ ns) = n +ℤ sum ns

zero-+ℤ : (a : ℤ) → pos 0 +ℤ a ≡ a
unfolding ◌+ℤ◌
zero-+ℤ a = ground arith

+ℤ-zero : (a : ℤ) → a +ℤ pos 0 ≡ a
unfolding ◌+ℤ◌
+ℤ-zero a = ground arith

-- 0 or 1.
unfoldable pub IsBit : Option Value → Type 0
IsBit (some (int (pos zero))) = Unit
IsBit (some (int (pos (suc zero)))) = Unit
IsBit (some (bool b)) = Unit
IsBit _ = ⊥

module _ (v : Valuation) (env : Assignment) (ok : IsAdmissible v env) where
  -- Each term evaluates to the integer beside it.
  unfoldable pub AllEvaluate : List Scalar → List ℤ → Type 0
  AllEvaluate [] [] = Unit
  AllEvaluate (t ∷ ts) (n ∷ ns) =
      (evaluate v.runtime env t ≡ returned (some (int n))) × AllEvaluate ts ns
  AllEvaluate _ _ = ⊥

  evaluate-add_two :
      (a b : Scalar) (m n : ℤ)
      → evaluate v.runtime env a ≡ returned (some (int m))
      → evaluate v.runtime env b ≡ returned (some (int n))
      → evaluate v.runtime env (add_two v a b) ≡ returned (some (int (m +ℤ n)))
  unfolding add_two
  evaluate-add_two a b m n h g =
      fold_scalar_sound v env ok (call add (scalars a (scalars b no_scalars))) (some (int (m +ℤ n)))
        (unfold evaluate in rw (h, g) refl)

  -- The values of the terms after one round.
  unfoldable paired : List ℤ → List ℤ
  paired [] = []
  paired (m ∷ []) = m ∷ []
  paired (m ∷ n ∷ ns) = (m +ℤ n) ∷ paired ns

  pair_up-AllEvaluate :
      (ts : List Scalar) (ns : List ℤ) → AllEvaluate ts ns → AllEvaluate (pair_up v ts) (paired ns)
  unfolding pair_up paired AllEvaluate
  pair_up-AllEvaluate [] [] h = tt
  pair_up-AllEvaluate (a ∷ []) (m ∷ []) h = h
  pair_up-AllEvaluate (a ∷ b ∷ ts) (m ∷ n ∷ ns) h =
      (evaluate-add_two a b m n h.0 h.1.0, pair_up-AllEvaluate ts ns h.1.1)
  pair_up-AllEvaluate [] (m ∷ ns) h = absurd h
  pair_up-AllEvaluate (a ∷ ts) [] h = absurd h
  pair_up-AllEvaluate (a ∷ []) (m ∷ n ∷ ns) h = absurd h.1
  pair_up-AllEvaluate (a ∷ b ∷ ts) (m ∷ []) h = absurd h.1

  sum-paired : (ns : List ℤ) → sum (paired ns) ≡ sum ns
  unfolding sum paired
  sum-paired [] = refl
  sum-paired (m ∷ []) = refl
  sum-paired (m ∷ n ∷ ns) = ap (λ s. m +ℤ n +ℤ s) (sum-paired ns) ∙ +ℤ_assoc m n (sum ns)

  length-pair_up : (ts : List Scalar) → length (pair_up v ts) ≤ length ts
  unfolding pair_up
  length-pair_up [] = omega arith
  length-pair_up (a ∷ []) = omega arith
  length-pair_up (a ∷ b ∷ ts) = omega (arith, length-pair_up ts)

  shorter : (a b : Scalar) (ts : List Scalar) → length (pair_up v (a ∷ b ∷ ts)) ≤ suc (length ts)
  unfolding pair_up
  shorter a b ts = omega (arith, length-pair_up ts)

  -- A term for the sum.
  abbrev Sums : Option Scalar → ℤ → Type 0
  Sums o n = (t : Scalar) × (o ≡ some t) × (evaluate v.runtime env t ≡ returned (some (int n)))

  balanced-Sums :
      (n : ℕ) (ts : List Scalar) (ns : List ℤ)
      → length ts ≤ suc n
      → AllEvaluate ts ns
      → Sums (balanced v n ts) (sum ns)
  unfolding balanced AllEvaluate sum
  balanced-Sums n [] [] l h = (zero_term, refl, unfold evaluate in refl)
  balanced-Sums n (t ∷ []) (m ∷ []) l h =
      (t, refl, h.0 ∙ ap (λ k. returned (some (int k))) (sym (+ℤ-zero m)))
  balanced-Sums n [] (m ∷ ns) l h = absurd h
  balanced-Sums n (t ∷ ts) [] l h = absurd h
  balanced-Sums n (t ∷ []) (m ∷ k ∷ ns) l h = absurd h.1
  balanced-Sums zero (a ∷ b ∷ ts) (m ∷ ns) l h = absurd (omega arith)
  balanced-Sums (suc n) (a ∷ b ∷ ts) (m ∷ ns) l h =
      let (t, e, g) =
        balanced-Sums n (pair_up v (a ∷ b ∷ ts)) (paired (m ∷ ns)) (omega (arith, shorter a b ts))
          (pair_up-AllEvaluate (a ∷ b ∷ ts) (m ∷ ns) h) in
      (t, e, g ∙ ap (λ k. returned (some (int k))) (sum-paired (m ∷ ns)))

  -- The values of the terms that are kept.
  unfoldable without_zeros : List Scalar → List ℤ → List ℤ
  without_zeros [] ns = []
  without_zeros (t ∷ ts) [] = []
  without_zeros (t ∷ ts) (n ∷ ns) =
      let rest = without_zeros ts ns in if is_zero_term t then rest else n ∷ rest

  is_zero-value :
      (t : Scalar) (n : ℤ)
      → is_zero_term t ≡ true
      → evaluate v.runtime env t ≡ returned (some (int n))
      → n ≡ pos 0
  unfolding is_zero_term evaluate
  is_zero-value (literal (int (pos zero))) n e h = cc
  is_zero-value t n e h = cc

  drop_zeros-AllEvaluate :
      (ts : List Scalar) (ns : List ℤ)
      → AllEvaluate ts ns
      → AllEvaluate (drop_zeros ts) (without_zeros ts ns)
  unfolding drop_zeros without_zeros AllEvaluate
  drop_zeros-AllEvaluate [] [] h = tt
  drop_zeros-AllEvaluate [] (n ∷ ns) h = absurd h
  drop_zeros-AllEvaluate (t ∷ ts) [] h = absurd h
  drop_zeros-AllEvaluate (t ∷ ts) (n ∷ ns) h = elim (Bool-cases (is_zero_term t)) [
    | inl e ↦ rw e (drop_zeros-AllEvaluate ts ns h.1)
    | inr e ↦ rw e (h.0, drop_zeros-AllEvaluate ts ns h.1)
  ]

  sum-without_zeros :
      (ts : List Scalar) (ns : List ℤ) → AllEvaluate ts ns → sum (without_zeros ts ns) ≡ sum ns
  unfolding without_zeros AllEvaluate sum
  sum-without_zeros [] [] h = refl
  sum-without_zeros [] (n ∷ ns) h = absurd h
  sum-without_zeros (t ∷ ts) [] h = absurd h
  sum-without_zeros (t ∷ ts) (n ∷ ns) h = elim (Bool-cases (is_zero_term t)) [
    | inl e ↦ rw e (
        sum-without_zeros ts ns h.1
        ∙ sym (zero-+ℤ (sum ns))
        ∙ ap (λ k. k +ℤ sum ns) (sym (is_zero-value t n e h.0)))
    | inr e ↦ rw e (ap (λ k. n +ℤ k) (sum-without_zeros ts ns h.1))
  ]

  length-drop_zeros : (ts : List Scalar) → length (drop_zeros ts) ≤ length ts
  unfolding drop_zeros
  length-drop_zeros [] = omega arith
  length-drop_zeros (t ∷ ts) = elim (Bool-cases (is_zero_term t)) [
    | inl e ↦ rw e (omega (arith, length-drop_zeros ts))
    | inr e ↦ rw e (omega (arith, length-drop_zeros ts))
  ]

  -- Under an admissible assignment, when all terms evaluate to integers, the loop of `add` ends with a
  -- term, and it evaluates to the sum of the integers.
  pub evaluate-sum_of :
      (ts : List Scalar) (ns : List ℤ)
      → AllEvaluate ts ns
      → (t : Scalar) × (sum_of v ts ≡ some t)
        × (evaluate v.runtime env t ≡ returned (some (int (sum ns))))
  unfolding sum_of
  evaluate-sum_of ts ns h =
      let (t, e, g) =
        balanced-Sums (length ts) (drop_zeros ts) (without_zeros ts ns)
          (omega (arith, length-drop_zeros ts)) (drop_zeros-AllEvaluate ts ns h) in
      (t, e, g ∙ ap (λ k. returned (some (int k))) (sum-without_zeros ts ns h))

  chosen :
      (z x : Option Bool) (t e : Scalar) (y : Option Value)
      → returned z ≡ returned x
      → select x (evaluate v.runtime env t) (evaluate v.runtime env e) ≡ returned y
      → select z (evaluate v.runtime env t) (evaluate v.runtime env e) ≡ returned y
  chosen z x t e y h g =
      subst (λ w. select w (evaluate v.runtime env t) (evaluate v.runtime env e) ≡ returned y)
        (sym (returned-injective h)) g

  -- Under an admissible assignment, `case` has the value of the branch that its condition selects,
  -- when the condition and both branches return.
  pub evaluate-case_of :
      (c : Predicate) (t e : Scalar) (x : Option Bool) (y : Option Value)
      → evaluate_predicate v.runtime env c ≡ returned x
      → select x (evaluate v.runtime env t) (evaluate v.runtime env e) ≡ returned y
      → evaluate v.runtime env (case_of v c t e) ≡ returned y
  unfolding case_of
  evaluate-case_of true3 t e x y h g =
      unfold select in chosen (some true) x t e y (unfold evaluate_predicate in h) g
  evaluate-case_of false3 t e x y h g =
      unfold select in chosen (some false) x t e y (unfold evaluate_predicate in h) g
  evaluate-case_of unknown3 t e x y h g =
      unfold select in chosen none x t e y (unfold evaluate_predicate in h) g
  evaluate-case_of c t e x y h g =
      fold_scalar_sound v env ok (case c t e) y (unfold evaluate in rw h g)

  less_than :
      (a b : Scalar) (m n : ℤ)
      → evaluate v.runtime env a ≡ returned (some (int m))
      → evaluate v.runtime env b ≡ returned (some (int n))
      → evaluate_predicate v.runtime env (fold_predicate v (lt3 a b)) ≡ returned (some (ltb_ℤ m n))
  less_than a b m n h g =
      fold_predicate_sound v env ok (lt3 a b) (some (ltb_ℤ m n))
        (unfold evaluate_predicate less in rw (h, g) refl)

  choose :
      (b : Bool) (p q : Outcome (Option Value)) (m n : ℤ)
      → p ≡ returned (some (int m))
      → q ≡ returned (some (int n))
      → select (some b) p q ≡ returned (some (int (if b then m else n)))
  unfolding select
  choose true p q m n h g = h
  choose false p q m n h g = g

  -- Under an admissible assignment, when both terms evaluate to integers, `minimum` evaluates to the
  -- smaller and `maximum` to the larger one.
  pub evaluate-minimum :
      (a b : Scalar) (m n : ℤ)
      → evaluate v.runtime env a ≡ returned (some (int m))
      → evaluate v.runtime env b ≡ returned (some (int n))
      → (evaluate v.runtime env (minimum v a b)
          ≡ returned (some (int (if ltb_ℤ m n then m else n))))
        × (evaluate v.runtime env (maximum v a b)
            ≡ returned (some (int (if ltb_ℤ m n then n else m))))
  unfolding minimum maximum
  evaluate-minimum a b m n h g =
      let c = fold_predicate v (lt3 a b) in
      (
        evaluate-case_of c a b (some (ltb_ℤ m n)) _ (less_than a b m n h g)
            (choose (ltb_ℤ m n) (evaluate v.runtime env a) (evaluate v.runtime env b) m n h g),
        evaluate-case_of c b a (some (ltb_ℤ m n)) _ (less_than a b m n h g)
            (choose (ltb_ℤ m n) (evaluate v.runtime env b) (evaluate v.runtime env a) n m g h),
      )

  input-IsBit : (x : ℕ) → v.is_binary x ≡ true → IsBit (env x)
  input-IsBit x h = elim (ok.binary x h) [
    | inl e ↦ subst IsBit (sym e) (unfold IsBit in tt)
    | inr e ↦ subst IsBit (sym e) (unfold IsBit in tt)
  ]

  and-cases : (a b : Bool) → a && b ≡ true → (a ≡ true) × (b ≡ true)
  and-cases true b h = (refl, h)
  and-cases false b h = cc

  select-IsBit :
      (x : Option Bool) (p q : Outcome (Option Value)) (y : Option Value)
      → ((y : Option Value) → p ≡ returned y → IsBit y)
      → ((y : Option Value) → q ≡ returned y → IsBit y)
      → select x p q ≡ returned y
      → IsBit y
  unfolding select
  select-IsBit none p q y f g h = g y h
  select-IsBit (some true) p q y f g h = f y h
  select-IsBit (some false) p q y f g h = g y h

  -- Under an admissible assignment, a binary term that returns gives 0 or 1.
  pub is_binary_term-IsBit :
      (t : Scalar) (y : Option Value)
      → is_binary_term v t ≡ true
      → evaluate v.runtime env t ≡ returned y
      → IsBit y
  unfolding is_binary_term evaluate
  is_binary_term-IsBit (case c t e) y h g =
      let b = and-cases (is_binary_term v t) (is_binary_term v e) h in
      let (x, ex, k) = >>=-eq-returned (evaluate_predicate v.runtime env c) _ g in
      select-IsBit x (evaluate v.runtime env t) (evaluate v.runtime env e) y
        (λ z. is_binary_term-IsBit t z b.0) (λ z. is_binary_term-IsBit e z b.1) k
  is_binary_term-IsBit (literal (int (pos zero))) y h g =
      subst IsBit (returned-injective g) (unfold IsBit in tt)
  is_binary_term-IsBit (literal (int (pos (suc zero)))) y h g =
      subst IsBit (returned-injective g) (unfold IsBit in tt)
  is_binary_term-IsBit (literal (bool b)) y h g =
      subst IsBit (returned-injective g) (unfold IsBit in tt)
  is_binary_term-IsBit (parameter x) y h g = subst IsBit (returned-injective g) (input-IsBit x h)
  is_binary_term-IsBit t y h g = cc
