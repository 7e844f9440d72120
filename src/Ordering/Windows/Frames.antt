-- ===== src/Ordering/Windows/Frames.antt =====
-- `_frame` of src/parseval/instance/ordering.py with ROWS boundaries selects a slice.
use par_seval.Common.{
  ℕ, zero, suc, ◌+◌, ◌-◌, ◌<◌, ◌≤◌, ◌≡◌, refl, sym, ap, ap₂, ◌∙◌, Bool, true, false, ◌&&◌,
  Bool-cases, inl, inr, arith, max, List, [], ◌∷◌, if◌then◌else◌, leb, leb→le, take, drop,
}
use par_seval.Scalar.Outcome.{Outcome, returned, ◌>>=◌}
use par_seval.Ordering.{Direction}
use par_seval.Ordering.Windows.{
  rows, preceding, following, no_others, Frame, Place, counted_bound, bound, excluded, in_frame,
  frame_of,
}

-- ROWS BETWEEN a PRECEDING AND b FOLLOWING.
abbrev pub rows_between : ℕ → ℕ → Frame
rows_between a b = record {
  mode = rows;
  start = preceding a;
  end_boundary = following b;
  exclusion = no_others;
}

-- The places stand in order from a position on.
unfoldable pub IsNumbered : ℕ → List Place → Type 0
IsNumbered n [] = Unit
IsNumbered n (p ∷ ps) = (p.position ≡ n) × IsNumbered (suc n) ps

in_frame-rows :
    (a b : ℕ) (d : Direction) (here there : Place)
    → in_frame (rows_between a b) d here there
      ≡ returned (leb here.position (there.position + a) && leb there.position (here.position + b))
unfolding in_frame bound excluded counted_bound
in_frame-rows a b d here there = elim (Bool-cases (leb here.position (there.position + a))) [
  | inl e ↦ rw e (ap returned (go (leb there.position (here.position + b))))
  | inr e ↦ rw e refl
]
  where
    go : (x : Bool) → x && true ≡ x
    go true = refl
    go false = refl

-- What is left of a slice of the places from `n` on.
abbrev sliced : ℕ → ℕ → ℕ → List Place → List Place
sliced n low high ps = take (high - max n low) (drop (low - n) ps)

sliced_eq :
    (n low high x y : ℕ) (ps : List Place)
    → high - max n low ≡ x
    → low - n ≡ y
    → sliced n low high ps ≡ take x (drop y ps)
sliced_eq n low high x y ps e f = ap₂ (λ x y. take x (drop y ps)) e f

sliced-step :
    (n low high : ℕ) (p : Place) (ps : List Place)
    → sliced n low high (p ∷ ps) ≡ (
        if leb low n && leb (suc n) high
        then p ∷ sliced (suc n) low high ps
        else sliced (suc n) low high ps)
sliced-step n low high p ps = elim (Bool-cases (leb low n)) [
  | inl e ↦
      let l = leb→le low n e in
      elim (Bool-cases (leb (suc n) high)) [
        | inl f ↦
            let m = leb→le (suc n) high f in
            rw (e, f)
              (sliced_eq n low high (suc (high - suc n)) 0 (p ∷ ps) (omega arith) (omega arith)
                ∙ ap (λ xs. p ∷ xs)
                    (sym
                      (sliced_eq (suc n) low high (high - suc n) 0 ps (omega arith) (omega arith))))
        | inr f ↦
            let m : high ≤ n = ground arith in
            rw (e, f)
              (sliced_eq n low high 0 0 (p ∷ ps) (omega arith) (omega arith)
                ∙ sym (sliced_eq (suc n) low high 0 0 ps (omega arith) (omega arith)))
      ]
  | inr e ↦
      let l : n < low = ground arith in
      rw e (
        sliced_eq n low high (high - low) (suc (low - suc n)) (p ∷ ps) (omega arith) (omega arith)
        ∙ sym
            (sliced_eq (suc n) low high (high - low) (low - suc n) ps (omega arith) (omega arith)))
]

selected :
    (a b : ℕ) (here there : Place) (n : ℕ)
    → there.position ≡ n
    → leb here.position (there.position + a) && leb there.position (here.position + b)
      ≡ leb (here.position - a) n && leb (suc n) (suc (here.position + b))
selected a b here there n e = rw e (ground arith)

frame_of-nil : (f : Frame) (d : Direction) (here : Place) → frame_of f d here [] ≡ returned []
unfolding frame_of
frame_of-nil f d here = refl

bind_both :
    (o : Outcome Bool) (m : Outcome (List Place)) (x : Bool) (p : Place) (xs : List Place)
    → o ≡ returned x
    → m ≡ returned xs
    → (o >>= λ b. m >>= λ rest. returned (if b then p ∷ rest else rest))
      ≡ returned (if x then p ∷ xs else xs)
bind_both o m x p xs e f = rw (e, f) refl

frame_of-step :
    (f : Frame) (d : Direction) (here p : Place) (ps : List Place) (x : Bool) (xs : List Place)
    → in_frame f d here p ≡ returned x
    → frame_of f d here ps ≡ returned xs
    → frame_of f d here (p ∷ ps) ≡ returned (if x then p ∷ xs else xs)
unfolding frame_of
frame_of-step f d here p ps x xs e g =
    bind_both (in_frame f d here p) (frame_of f d here ps) x p xs e g

rows-from :
    (a b : ℕ) (d : Direction) (here : Place) (n : ℕ) (ps : List Place)
    → IsNumbered n ps
    → frame_of (rows_between a b) d here ps
      ≡ returned (sliced n (here.position - a) (suc (here.position + b)) ps)
unfolding IsNumbered
rows-from a b d here n [] h =
    frame_of-nil (rows_between a b) d here
    ∙ ap returned
        (sym (empty (here.position - a - n) (suc (here.position + b) - max n (here.position - a))))
  where
    none_left : List Place
    none_left = []

    empty : (y x : ℕ) → take x (drop y none_left) ≡ none_left
    empty zero zero = refl
    empty zero (suc x) = refl
    empty (suc y) zero = refl
    empty (suc y) (suc x) = refl
rows-from a b d here n (p ∷ ps) h =
    frame_of-step (rows_between a b) d here p ps
      (leb (here.position - a) n && leb (suc n) (suc (here.position + b)))
      (sliced (suc n) (here.position - a) (suc (here.position + b)) ps)
      (in_frame-rows a b d here p ∙ ap returned (selected a b here p n h.0))
      (rows-from a b d here (suc n) ps h.1)
    ∙ ap returned (sym (sliced-step n (here.position - a) (suc (here.position + b)) p ps))

-- On places that stand in order from position 0, the frame ROWS BETWEEN a PRECEDING AND b FOLLOWING of
-- a row is the slice from `a` places before it, or from the first one, to `b` places after it.
pub rows_between-slice :
    (a b : ℕ) (d : Direction) (here : Place) (ps : List Place)
    → IsNumbered 0 ps
    → frame_of (rows_between a b) d here ps
      ≡ returned
          (take (suc (here.position + b) - (here.position - a)) (drop (here.position - a) ps))
rows_between-slice a b d here ps h =
    rows-from a b d here 0 ps h
    ∙ ap returned (
        sliced_eq 0 (here.position - a) (suc (here.position + b))
          (suc (here.position + b) - (here.position - a)) (here.position - a) ps (omega arith)
          (omega arith))
