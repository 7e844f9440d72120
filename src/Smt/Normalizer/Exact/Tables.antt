-- ===== src/Smt/Normalizer/Exact/Tables.antt =====
-- The comparisons of an input with a constant or another input, `_compare`, `_not_distinct` and the
-- LIKE case of src/parseval/smt/csp.py, value by value.
use par_seval.Common.{
  ℕ, ◌≡◌, refl, sym, ap, ◌∙◌, Bool, true, false, not, ◌&&◌, ◌||◌, Bool-cases, inl, inr, arith,
  if◌then◌else◌, Option, none, some, List,
}
use mathlib.Core.Path.{subst}
use par_seval.Scalar.Outcome.{Outcome, returned, >>=-eq-returned, returned-injective}
use par_seval.Scalar.Term.{Value, bool, int, text}
use par_seval.Scalar.Like.{like}
use par_seval.Scalar.Evaluate.{
  Runtime, Assignment, same_value, less, not_distinct, is_none, equal, order_less, match_text,
  cased_like, as_truth,
}
use par_seval.Scalar.Comparisons.{same_value_iff, same_value_refl, same_value_comm, equal-returned}
use par_seval.Smt.Formula.{
  Formula, known, atom, no_formulas, formulas, Test, eq, ne, lt, le, gt, ge, is_null, not_null,
  matches, not_matches, eq_var, ne_var, holds, atom_holds, some_passes, value_passes, matches_like,
  is_returned_true, is_returned_false,
}
use par_seval.Smt.Formula.Laws.{holds-all_of, holds-either}
use par_seval.Smt.Normalizer.Attempt.{
  Attempt, done, done-injective, Wanted, want_true, want_false, want_unknown, is_outcome,
}
use par_seval.Smt.Normalizer.Truth.{
  Operand, input, constant, equality, less_than, greater_than, is_unknown_wanted, with_constant,
  equality_of_inputs, compare_eq, compare_lt, like_operands, boolean_operand,
}

-- The atoms for TRUE, FALSE and UNKNOWN pass exactly on that outcome.
abbrev Says : Test → Test → Option Value → Option Bool → Type 0
Says t f m x =
    (some_passes t m ≡ is_outcome want_true x)
    × (some_passes f m ≡ is_outcome want_false x)
    × (is_none m ≡ is_outcome want_unknown x)

Says-decided :
    (t f : Test) (c : Value) (b : Bool)
    → value_passes t c ≡ b
    → value_passes f c ≡ not b
    → Says t f (some c) (some b)
unfolding is_outcome is_none
Says-decided t f c true p q = (p, q, refl)
Says-decided t f c false p q = (p, q, refl)

Says-unknown : (t f : Test) → Says t f none none
unfolding is_outcome is_none
Says-unknown t f = (refl, refl, refl)

returned_true : (c : Bool) → is_returned_true (returned c) ≡ c
returned_true true = refl
returned_true false = refl

returned_false : (c : Bool) → is_returned_false (returned c) ≡ not c
returned_false true = refl
returned_false false = refl

abbrev pub operand_value : Assignment → Operand → Option Value
operand_value env (input a) = env a
operand_value env (constant c) = c

module _ (r : Runtime) where
  eq-Says :
      (m : Option Value) (b : Value) (x : Option Bool)
      → equal r m (some b) ≡ returned x
      → Says (eq b) (ne b) m x
  unfolding equal
  eq-Says none b x h =
      subst (λ y. Says (eq b) (ne b) none y) (returned-injective h) (Says-unknown (eq b) (ne b))
  eq-Says (some a) b x h =
      subst (λ y. Says (eq b) (ne b) (some a) y) (sym (equal-returned r a b x h))
        (unfold value_passes in Says-decided (eq b) (ne b) a (same_value a b) refl refl)

  less-outcome :
      (a b : Value) (x : Option Bool)
      → order_less r (some a) (some b) ≡ returned x
      → (c : Bool) × (less a b ≡ returned c) × (x ≡ some c)
  unfolding order_less
  less-outcome a b x h =
      let (c, e, g) = >>=-eq-returned (less a b) (λ v. returned (some v)) h in
      (c, e, sym (returned-injective g))

  lt-Says :
      (m : Option Value) (b : Value) (x : Option Bool)
      → order_less r m (some b) ≡ returned x
      → Says (lt b) (ge b) m x
  unfolding order_less
  lt-Says none b x h =
      subst (λ y. Says (lt b) (ge b) none y) (returned-injective h) (Says-unknown (lt b) (ge b))
  lt-Says (some a) b x h =
      let (c, e, g) = less-outcome a b x h in
      subst (λ y. Says (lt b) (ge b) (some a) y) (sym g)
        (unfold value_passes in
          Says-decided (lt b) (ge b) a c (ap is_returned_true e ∙ returned_true c)
            (ap is_returned_false e ∙ returned_false c))

  gt-Says :
      (m : Option Value) (b : Value) (x : Option Bool)
      → order_less r (some b) m ≡ returned x
      → Says (gt b) (le b) m x
  unfolding order_less
  gt-Says none b x h =
      subst (λ y. Says (gt b) (le b) none y) (returned-injective h) (Says-unknown (gt b) (le b))
  gt-Says (some a) b x h =
      let (c, e, g) = less-outcome b a x h in
      subst (λ y. Says (gt b) (le b) (some a) y) (sym g)
        (unfold value_passes in
          Says-decided (gt b) (le b) a c (ap is_returned_true e ∙ returned_true c)
            (ap is_returned_false e ∙ returned_false c))

  cased_like-plain :
      (a p : List ℕ) (c : Bool) → cased_like r a p ≡ returned c → like false a p ≡ returned c
  unfolding cased_like
  cased_like-plain a p c h =
      let (x, e, g) = >>=-eq-returned (like false a p) _ h in
      elim (Bool-cases r.case_insensitive) [
        | inr n ↦ e ∙ rw n at g
        | inl y ↦
            let (z, ez, k) =
              >>=-eq-returned (like false (r.casefold a) (r.casefold p)) _ (rw y at g) in
            elim (Bool-cases (if x then z else not z)) [
              | inl w ↦ e ∙ rw w at k
              | inr w ↦ cc (rw w at k)
            ]
      ]

  matches-Says :
      (m : Option Value) (p : Value) (x : Option Bool)
      → match_text r (cased_like r) m (some p) ≡ returned x
      → Says (matches p) (not_matches p) m x
  unfolding match_text
  matches-Says none p x h =
      subst (λ y. Says (matches p) (not_matches p) none y) (returned-injective h)
        (Says-unknown (matches p) (not_matches p))
  matches-Says (some (text a)) (text p) x h =
      let (c, e, g) = >>=-eq-returned (cased_like r a p) (λ v. returned (some v)) h in
      let k : matches_like (text a) (text p) ≡ c =
        unfold matches_like in (ap is_returned_true (cased_like-plain a p c e) ∙ returned_true c) in
      subst (λ y. Says (matches (text p)) (not_matches (text p)) (some (text a)) y)
        (returned-injective g)
        (unfold value_passes in
          Says-decided (matches (text p)) (not_matches (text p)) (text a) c k (ap not k))
  matches-Says (some a) p x h = cc

  boolean-Says :
      (m : Option Value) (x : Option Bool)
      → as_truth r m ≡ returned x
      → Says (eq (bool true)) (eq (bool false)) m x
  unfolding as_truth
  boolean-Says none x h =
      subst (λ y. Says (eq (bool true)) (eq (bool false)) none y) (returned-injective h)
        (Says-unknown (eq (bool true)) (eq (bool false)))
  boolean-Says (some (bool b)) x h =
      subst (λ y. Says (eq (bool true)) (eq (bool false)) (some (bool b)) y) (returned-injective h)
        (unfold value_passes in
          Says-decided (eq (bool true)) (eq (bool false)) (bool b) b (bool_same b) (bool_other b))
    where
      bool_same : (b : Bool) → same_value (bool b) (bool true) ≡ b
      bool_same true = same_value_refl (bool true)
      bool_same false = ground (arith, same_value_iff (bool false) (bool true))

      bool_other : (b : Bool) → same_value (bool b) (bool false) ≡ not b
      bool_other false = same_value_refl (bool false)
      bool_other true = ground (arith, same_value_iff (bool true) (bool false))
  boolean-Says (some a) x h = cc

  module _ (env : Assignment) where
    -- The formulas a comparison of an input with a constant gives.
    abbrev Reads : (Wanted → ℕ → Value → Formula) → ℕ → Value → Option Bool → Type 0
    Reads g a b x = (o : Wanted) → holds r env (g o a b) ≡ is_outcome o x

    Reads-equality :
        (a : ℕ) (b : Value) (x : Option Bool) → Says (eq b) (ne b) (env a) x → Reads equality a b x
    unfolding equality holds
    Reads-equality a b x s want_true = s.0
    Reads-equality a b x s want_false = s.1
    Reads-equality a b x s want_unknown = s.2

    Reads-less_than :
        (a : ℕ) (b : Value) (x : Option Bool) → Says (lt b) (ge b) (env a) x → Reads less_than a b x
    unfolding less_than holds
    Reads-less_than a b x s want_true = s.0
    Reads-less_than a b x s want_false = s.1
    Reads-less_than a b x s want_unknown = s.2

    Reads-greater_than :
        (a : ℕ) (b : Value) (x : Option Bool)
        → Says (gt b) (le b) (env a) x
        → Reads greater_than a b x
    unfolding greater_than holds
    Reads-greater_than a b x s want_true = s.0
    Reads-greater_than a b x s want_false = s.1
    Reads-greater_than a b x s want_unknown = s.2

    unknown-exact : (o : Wanted) → holds r env (known (is_unknown_wanted o)) ≡ is_outcome o none
    unfolding holds is_outcome
    unknown-exact want_true = refl
    unknown-exact want_false = refl
    unknown-exact want_unknown = refl

    -- What a table of formulas for two operands has to say.
    abbrev pub IsTable :
        (Wanted → Operand → Operand → Attempt Formula)
        → (Option Value → Option Value → Outcome (Option Bool))
        → Type 0
    IsTable g test =
        (o : Wanted) (a b : Operand) (f : Formula) (x : Option Bool)
        → g o a b ≡ done f
        → test (operand_value env a) (operand_value env b) ≡ returned x
        → holds r env f ≡ is_outcome o x

    none-unknown :
        (o : Wanted) (f : Formula) (x : Option Bool)
        → done (known (is_unknown_wanted o)) ≡ done f
        → none ≡ x
        → holds r env f ≡ is_outcome o x
    none-unknown o f x h e =
        ap (holds r env) (sym (done-injective h)) ∙ unknown-exact o ∙ ap (is_outcome o) e

    equal-none : (m : Option Value) → equal r m none ≡ returned none
    unfolding equal
    equal-none none = refl
    equal-none (some c) = refl

    order_less-none : (m : Option Value) → order_less r m none ≡ returned none
    unfolding order_less
    order_less-none none = refl
    order_less-none (some c) = refl

    match_text-none : (m : Option Value) → match_text r (cased_like r) m none ≡ returned none
    unfolding match_text
    match_text-none none = refl
    match_text-none (some (text c)) = refl
    match_text-none (some (bool c)) = refl
    match_text-none (some (int c)) = refl

    pub like_operands-IsTable : IsTable like_operands (match_text r (cased_like r))
    unfolding like_operands
    like_operands-IsTable o (input a) (constant none) f x h e =
        none-unknown o f x h (returned-injective (sym (match_text-none (env a)) ∙ e))
    like_operands-IsTable want_true (input a) (constant (some p)) f x h e =
        ap (holds r env) (sym (done-injective h)) ∙ unfold holds in (matches-Says (env a) p x e).0
    like_operands-IsTable want_false (input a) (constant (some p)) f x h e =
        ap (holds r env) (sym (done-injective h)) ∙ unfold holds in (matches-Says (env a) p x e).1
    like_operands-IsTable want_unknown (input a) (constant (some p)) f x h e =
        ap (holds r env) (sym (done-injective h)) ∙ unfold holds in (matches-Says (env a) p x e).2
    like_operands-IsTable o a b f x h e = cc

    equal-swap :
        (m : Option Value) (b : Value) (x : Option Bool)
        → equal r (some b) m ≡ returned x
        → Says (eq b) (ne b) m x
    unfolding equal
    equal-swap none b x h =
        subst (λ y. Says (eq b) (ne b) none y) (returned-injective h) (Says-unknown (eq b) (ne b))
    equal-swap (some a) b x h =
        subst (λ y. Says (eq b) (ne b) (some a) y) (sym (equal-returned r b a x h))
          (unfold value_passes in
            Says-decided (eq b) (ne b) a (same_value b a) (same_value_comm a b)
              (ap not (same_value_comm a b)))

    none-equal : (m : Option Value) → equal r none m ≡ returned none
    unfolding equal
    none-equal m = refl

    none-order_less : (m : Option Value) → order_less r none m ≡ returned none
    unfolding order_less
    none-order_less m = refl

    inputs_unknown :
        (m k : Option Value) (x : Option Bool)
        → equal r m k ≡ returned x
        → is_none m || is_none k ≡ is_outcome want_unknown x
    unfolding equal is_none is_outcome
    inputs_unknown none k x h = ap (is_outcome want_unknown) (returned-injective h)
    inputs_unknown (some c) none x h = ap (is_outcome want_unknown) (returned-injective h)
    inputs_unknown (some c) (some d) x h =
        ap (is_outcome want_unknown) (sym (equal-returned r c d x h))

    inputs_same :
        (m k : Option Value) (x : Option Bool)
        → equal r m k ≡ returned x
        → not (is_none m) && (not (is_none k) && (not_distinct m k && true))
          ≡ is_outcome want_true x
    unfolding equal is_none is_outcome not_distinct
    inputs_same none k x h = ap (is_outcome want_true) (returned-injective h)
    inputs_same (some c) none x h = ap (is_outcome want_true) (returned-injective h)
    inputs_same (some c) (some d) x h = rw (equal-returned r c d x h) (ground arith)

    inputs_apart :
        (m k : Option Value) (x : Option Bool)
        → equal r m k ≡ returned x
        → not (is_none m) && (not (is_none k) && (not (not_distinct m k) && true))
          ≡ is_outcome want_false x
    unfolding equal is_none is_outcome not_distinct
    inputs_apart none k x h = ap (is_outcome want_false) (returned-injective h)
    inputs_apart (some c) none x h = ap (is_outcome want_false) (returned-injective h)
    inputs_apart (some c) (some d) x h = rw (equal-returned r c d x h) (ground arith)

    inputs-Says :
        (o : Wanted) (a b : ℕ) (x : Option Bool) (m k : Option Value)
        → env a ≡ m
        → env b ≡ k
        → equal r m k ≡ returned x
        → holds r env (equality_of_inputs o a b) ≡ is_outcome o x
    unfolding equality_of_inputs
    inputs-Says want_unknown a b x m k p q h =
        holds-either r env (atom a is_null) (atom b is_null)
        ∙ unfold holds in rw (p, q) (inputs_unknown m k x h)
    inputs-Says want_true a b x m k p q h =
        holds-all_of r env (
          formulas (atom a not_null)
            (formulas (atom b not_null) (formulas (atom a (eq_var b)) no_formulas)))
        ∙ unfold holds atom_holds in rw (p, q) (inputs_same m k x h)
    inputs-Says want_false a b x m k p q h =
        holds-all_of r env (
          formulas (atom a not_null)
            (formulas (atom b not_null) (formulas (atom a (ne_var b)) no_formulas)))
        ∙ unfold holds atom_holds in rw (p, q) (inputs_apart m k x h)

    pub compare_eq-IsTable : IsTable compare_eq (equal r)
    unfolding compare_eq with_constant
    compare_eq-IsTable o (input a) (constant none) f x h e =
        none-unknown o f x h (returned-injective (sym (equal-none (env a)) ∙ e))
    compare_eq-IsTable o (input a) (constant (some b)) f x h e =
        ap (holds r env) (sym (done-injective h)) ∙ Reads-equality a b x (eq-Says (env a) b x e) o
    compare_eq-IsTable o (constant none) (input b) f x h e =
        none-unknown o f x h (returned-injective (sym (none-equal (env b)) ∙ e))
    compare_eq-IsTable o (constant (some a)) (input b) f x h e =
        ap (holds r env) (sym (done-injective h))
        ∙ Reads-equality b a x (equal-swap (env b) a x e) o
    compare_eq-IsTable o (input a) (input b) f x h e =
        ap (holds r env) (sym (done-injective h)) ∙ inputs-Says o a b x (env a) (env b) refl refl e
    compare_eq-IsTable o (constant a) (constant b) f x h e = cc

    pub compare_lt-IsTable : IsTable compare_lt (order_less r)
    unfolding compare_lt with_constant
    compare_lt-IsTable o (input a) (constant none) f x h e =
        none-unknown o f x h (returned-injective (sym (order_less-none (env a)) ∙ e))
    compare_lt-IsTable o (input a) (constant (some b)) f x h e =
        ap (holds r env) (sym (done-injective h)) ∙ Reads-less_than a b x (lt-Says (env a) b x e) o
    compare_lt-IsTable o (constant none) (input b) f x h e =
        none-unknown o f x h (returned-injective (sym (none-order_less (env b)) ∙ e))
    compare_lt-IsTable o (constant (some a)) (input b) f x h e =
        ap (holds r env) (sym (done-injective h))
        ∙ Reads-greater_than b a x (gt-Says (env b) a x e) o
    compare_lt-IsTable o a b f x h e = cc

    pub boolean_operand-exact :
        (o : Wanted) (a : Operand) (f : Formula) (x : Option Bool)
        → boolean_operand o a ≡ done f
        → as_truth r (operand_value env a) ≡ returned x
        → holds r env f ≡ is_outcome o x
    unfolding boolean_operand
    boolean_operand-exact want_true (input a) f x h e =
        ap (holds r env) (sym (done-injective h)) ∙ unfold holds in (boolean-Says (env a) x e).0
    boolean_operand-exact want_false (input a) f x h e =
        ap (holds r env) (sym (done-injective h)) ∙ unfold holds in (boolean-Says (env a) x e).1
    boolean_operand-exact want_unknown (input a) f x h e =
        ap (holds r env) (sym (done-injective h)) ∙ unfold holds in (boolean-Says (env a) x e).2
    boolean_operand-exact o (constant c) f x h e = cc
