-- ===== src/Scalar/Order.antt =====
-- `<` on SQL values, a strict order: src/parseval/instance/domain.py and ordering.py rely on it.
use par_seval.Common.{
  ℕ, ◌≡◌, refl, ap₂, Bool, true, false, not, ◌&&◌, ◌||◌, Bool-cases, inl, inr, arith, List, [], ◌∷◌,
  ltb,
}
use par_seval.Common.Int.{ltb_ℤ, eq_of_parts}
use par_seval.Scalar.Term.{Value, bool, int, text}
use par_seval.Scalar.Evaluate.{same_value, less_text}
use par_seval.Scalar.Comparisons.{same_value_refl, same_value_comm}

abbrev pub sort_rank : Value → ℕ
sort_rank (bool b) = 0
sort_rank (int n) = 1
sort_rank (text s) = 2

-- `<`. Values of two sorts never meet in one space; the source would raise, and here the sorts have
-- an order of their own.
unfoldable pub value_before : Value → Value → Bool
unfolding less_text
value_before (bool a) (bool b) = not a && b
value_before (int a) (int b) = ltb_ℤ a b
value_before (text a) (text b) = less_text a b
value_before a b = ltb (sort_rank a) (sort_rank b)

less_text_irrefl : (a : List ℕ) → less_text a a ≡ false
unfolding less_text
less_text_irrefl [] = refl
less_text_irrefl (a ∷ xs) = ground (arith, less_text_irrefl xs)

less_text_trans :
    (a b c : List ℕ) → less_text a b ≡ true → less_text b c ≡ true → less_text a c ≡ true
unfolding less_text
less_text_trans [] [] c h g = cc
less_text_trans (a ∷ xs) [] c h g = cc
less_text_trans [] (b ∷ ys) [] h g = cc
less_text_trans [] (b ∷ ys) (c ∷ zs) h g = refl
less_text_trans (a ∷ xs) (b ∷ ys) [] h g = cc
less_text_trans (a ∷ xs) (b ∷ ys) (c ∷ zs) h g = ground (arith, less_text_trans xs ys zs)

data Trichotomy (a b : List ℕ) : Type 0 where
  before : less_text a b ≡ true → Trichotomy a b
  equal : a ≡ b → Trichotomy a b
  after : less_text b a ≡ true → Trichotomy a b

less_text_total : (a b : List ℕ) → Trichotomy a b
unfolding less_text
less_text_total [] [] = equal refl
less_text_total [] (b ∷ ys) = before refl
less_text_total (a ∷ xs) [] = after refl
less_text_total (a ∷ xs) (b ∷ ys) = elim (Bool-cases (ltb a b)) [
  | inl e ↦ before (rw e refl)
  | inr e ↦ elim (Bool-cases (ltb b a)) [
    | inl f ↦ after (rw f refl)
    | inr f ↦
        let g : a ≡ b = ground arith in
        elim (less_text_total xs ys) [
          | before h ↦ before (ground (arith, g))
          | equal h ↦ equal (ap₂ ◌∷◌ g h)
          | after h ↦ after (ground (arith, g))
        ]
  ]
]

-- Two values of one sort, or of two.
pub value_total : (a b : Value) → value_before a b || (same_value a b || value_before b a) ≡ true
unfolding value_before
value_total (bool true) (bool true) = rw (same_value_refl (bool true)) refl
value_total (bool true) (bool false) = rw (same_value_comm (bool true) (bool false)) (ground arith)
value_total (bool false) (bool true) = refl
value_total (bool false) (bool false) = rw (same_value_refl (bool false)) refl
value_total (int a) (int b) = elim (Bool-cases (ltb_ℤ a b)) [
  | inl e ↦ rw e refl
  | inr e ↦ elim (Bool-cases (ltb_ℤ b a)) [
    | inl f ↦ rw f (ground arith)
    | inr f ↦
        let g : a ≡ b = eq_of_parts a b (ground arith) in
        rw (g, same_value_refl (int b)) (ground arith)
  ]
]
value_total (text a) (text b) = elim (less_text_total a b) [
  | before e ↦ rw e refl
  | equal e ↦ rw (e, same_value_refl (text b)) (ground arith)
  | after e ↦ rw e (ground arith)
]
value_total a b = ground arith

pub value_trans :
    (a b c : Value) → value_before a b ≡ true → value_before b c ≡ true → value_before a c ≡ true
unfolding value_before
value_trans (bool a) (bool b) (bool c) h g = ground arith
value_trans (int a) (int b) (int c) h g = ground arith
value_trans (text a) (text b) (text c) h g = less_text_trans a b c h g
value_trans a b c h g = ground arith

pub value_irrefl : (a : Value) → value_before a a ≡ false
unfolding value_before
value_irrefl (bool a) = ground arith
value_irrefl (int a) = ground arith
value_irrefl (text a) = less_text_irrefl a
