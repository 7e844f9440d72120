-- ===== src/Ordering/Preorder.antt =====
-- `compare_values` and `compare_keys` of src/parseval/instance/ordering.py are total preorders.
use par_seval.Common.{
  ◌≡◌, refl, sym, ap, ◌∙◌, true, false, Bool-cases, ◌⊎◌, inl, inr, arith, Option, none, some, List,
  [], ◌∷◌,
}
use mathlib.Core.Path.{subst}
use par_seval.Scalar.Term.{Value}
use par_seval.Scalar.Evaluate.{same_value}
use par_seval.Scalar.Comparisons.{same_value_iff}
use par_seval.Scalar.Order.{value_before, value_irrefl, value_trans, value_total}
use par_seval.Ordering.{
  Direction, asc, desc, NullPlacement, first, last, OrderKeySpec, Comparison, smaller, same, larger,
  reversed, compare_present, directed, compare_values, Key, and_then, compare_keys,
}

-- The first is not after the second.
unfoldable pub IsAtMost : Comparison → Type 0
IsAtMost smaller = Unit
IsAtMost same = Unit
IsAtMost larger = ⊥

value_asym : (a b : Value) → value_before a b ≡ true → value_before b a ≡ false
value_asym a b h = elim (Bool-cases (value_before b a)) [
  | inl e ↦ cc (value_trans a b a h e, value_irrefl a)
  | inr e ↦ e
]

-- The three ways two values compare.
present-cases :
    (a b : Value)
    → ((value_before a b ≡ true) × (compare_present a b ≡ smaller))
      ⊎ (((a ≡ b) × (compare_present a b ≡ same))
          ⊎ ((value_before b a ≡ true) × (compare_present a b ≡ larger)))
unfolding compare_present
present-cases a b = elim (Bool-cases (value_before a b)) [
  | inl e ↦ inl (e, rw e refl)
  | inr e ↦ elim (Bool-cases (value_before b a)) [
    | inl f ↦ inr (inr (f, rw (e, f) refl))
    | inr f ↦
        let g : same_value a b ≡ true = ground (arith, value_total a b) in
        inr (inl ((same_value_iff a b).0 g, rw (e, f) refl))
  ]
]

present-before : (a b : Value) → value_before a b ≡ true → compare_present a b ≡ smaller
unfolding compare_present
present-before a b h = rw h refl

present-reversed : (a b : Value) → compare_present b a ≡ reversed (compare_present a b)
unfolding compare_present reversed
present-reversed a b = elim (Bool-cases (value_before a b)) [
  | inl e ↦ rw (e, value_asym a b e) refl
  | inr e ↦ elim (Bool-cases (value_before b a)) [ inl f ↦ rw (e, f) refl | inr f ↦ rw (e, f) refl ]
]

present-and_then :
    (a b c : Value)
    → IsAtMost (compare_present a b)
    → IsAtMost (compare_present b c)
    → compare_present a c ≡ and_then (compare_present a b) (compare_present b c)
unfolding IsAtMost and_then
present-and_then a b c h g = elim (present-cases a b) [
  | inl (e, p) ↦ elim (present-cases b c) [
    | inl (f, q) ↦ rw p (present-before a c (value_trans a b c e f))
    | inr (inl (f, q)) ↦ rw p (present-before a c (subst (λ x. value_before a x ≡ true) f e))
    | inr (inr (f, q)) ↦ absurd (rw q at g)
  ]
  | inr (inl (e, p)) ↦ rw p (ap (λ x. compare_present x c) e)
  | inr (inr (e, p)) ↦ absurd (rw p at h)
]

pub and_then_comm : (x y : Comparison) → IsAtMost x → IsAtMost y → and_then x y ≡ and_then y x
unfolding IsAtMost and_then
and_then_comm smaller smaller h g = refl
and_then_comm smaller same h g = refl
and_then_comm same smaller h g = refl
and_then_comm same same h g = refl
and_then_comm larger y h g = absurd h
and_then_comm x larger h g = absurd g

directed-and_then :
    (d : Direction) (a b c : Value)
    → IsAtMost (directed d (compare_present a b))
    → IsAtMost (directed d (compare_present b c))
    → directed d (compare_present a c)
      ≡ and_then (directed d (compare_present a b)) (directed d (compare_present b c))
unfolding directed
directed-and_then asc a b c h g = present-and_then a b c h g
directed-and_then desc a b c h g =
    rw (sym (present-reversed a b), sym (present-reversed b c), sym (present-reversed a c))
      (present-and_then c b a (subst IsAtMost (sym (present-reversed b c)) g)
          (subst IsAtMost (sym (present-reversed a b)) h)
        ∙ and_then_comm (compare_present c b) (compare_present b a)
            (subst IsAtMost (sym (present-reversed b c)) g)
            (subst IsAtMost (sym (present-reversed a b)) h))

smaller_last : (x : Comparison) → IsAtMost x → smaller ≡ and_then x smaller
unfolding IsAtMost and_then
smaller_last smaller h = refl
smaller_last same h = refl
smaller_last larger h = absurd h

placed-and_then :
    (d : Direction) (n : NullPlacement) (a b c : Option Value)
    → IsAtMost (compare_values a b (record { direction = d; nulls = n }))
    → IsAtMost (compare_values b c (record { direction = d; nulls = n }))
    → compare_values a c (record { direction = d; nulls = n })
      ≡ and_then
          (compare_values a b (record { direction = d; nulls = n }))
          (compare_values b c (record { direction = d; nulls = n }))
unfolding compare_values IsAtMost and_then
placed-and_then d n none none c h g = refl
placed-and_then d first none (some b) none h g = absurd g
placed-and_then d last none (some b) c h g = absurd h
placed-and_then d first none (some b) (some c) h g = refl
placed-and_then d first (some a) none c h g = absurd h
placed-and_then d last (some a) none none h g = refl
placed-and_then d last (some a) none (some c) h g = absurd g
placed-and_then d first (some a) (some b) none h g = absurd g
placed-and_then d last (some a) (some b) none h g =
    smaller_last (directed d (compare_present a b)) h
placed-and_then d n (some a) (some b) (some c) h g = directed-and_then d a b c h g

placed-reversed :
    (d : Direction) (n : NullPlacement) (a b : Option Value)
    → compare_values b a (record { direction = d; nulls = n })
      ≡ reversed (compare_values a b (record { direction = d; nulls = n }))
unfolding compare_values reversed
placed-reversed d n none none = refl
placed-reversed d first none (some b) = refl
placed-reversed d last none (some b) = refl
placed-reversed d first (some a) none = refl
placed-reversed d last (some a) none = refl
placed-reversed asc n (some a) (some b) = present-reversed a b
placed-reversed desc n (some a) (some b) = ap reversed (present-reversed a b)

and_then-reversed :
    (x y : Comparison) → and_then (reversed x) (reversed y) ≡ reversed (and_then x y)
unfolding and_then reversed
and_then-reversed smaller y = refl
and_then-reversed same y = refl
and_then-reversed larger y = refl

lexicographic :
    (x1 x2 x3 r1 r2 r3 : Comparison)
    → IsAtMost (and_then x1 r1)
    → IsAtMost (and_then x2 r2)
    → (IsAtMost x1 → IsAtMost x2 → x3 ≡ and_then x1 x2)
    → (IsAtMost r1 → IsAtMost r2 → r3 ≡ and_then r1 r2)
    → and_then x3 r3 ≡ and_then (and_then x1 r1) (and_then x2 r2)
unfolding IsAtMost and_then
lexicographic smaller smaller x3 r1 r2 r3 h g p q = rw (p tt tt) refl
lexicographic smaller same x3 r1 r2 r3 h g p q = rw (p tt tt) refl
lexicographic same smaller x3 smaller r2 r3 h g p q = rw (p tt tt) refl
lexicographic same smaller x3 same r2 r3 h g p q = rw (p tt tt) refl
lexicographic same smaller x3 larger r2 r3 h g p q = absurd h
lexicographic same same x3 r1 r2 r3 h g p q = rw (p tt tt) (q h g)
lexicographic larger x2 x3 r1 r2 r3 h g p q = absurd h
lexicographic x1 larger x3 r1 r2 r3 h g p q = absurd g

-- Exchanging two keys reverses their comparison.
pub compare_keys-reversed :
    (ss : List OrderKeySpec) (a b : Key ss) → compare_keys ss b a ≡ reversed (compare_keys ss a b)
unfolding compare_keys
compare_keys-reversed [] a b = unfold reversed in refl
compare_keys-reversed (s ∷ ss) a b =
    rw (placed-reversed s.direction s.nulls a.0 b.0, compare_keys-reversed ss a.1 b.1)
      (and_then-reversed (compare_values a.0 b.0 s) (compare_keys ss a.1 b.1))

-- When a key is not after a second and that one is not after a third, the first compares with the
-- third as it does with the second, or, if those are the same, as the second with the third.
pub compare_keys-and_then :
    (ss : List OrderKeySpec) (a b c : Key ss)
    → IsAtMost (compare_keys ss a b)
    → IsAtMost (compare_keys ss b c)
    → compare_keys ss a c ≡ and_then (compare_keys ss a b) (compare_keys ss b c)
unfolding compare_keys
compare_keys-and_then [] a b c h g = unfold and_then in refl
compare_keys-and_then (s ∷ ss) a b c h g =
    lexicographic (compare_values a.0 b.0 s) (compare_values b.0 c.0 s) (compare_values a.0 c.0 s)
      (compare_keys ss a.1 b.1) (compare_keys ss b.1 c.1) (compare_keys ss a.1 c.1) h g
      (placed-and_then s.direction s.nulls a.0 b.0 c.0) (compare_keys-and_then ss a.1 b.1 c.1)
