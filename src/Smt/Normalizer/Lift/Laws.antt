-- ===== src/Smt/Normalizer/Lift/Laws.antt =====
-- The alternatives of src/parseval/smt/csp.py, `_lift`: exactly one of them is selected, and it has
-- the value of the lifted term.
use par_seval.Common.{
  ◌≡◌, refl, ap, ◌∙◌, ◌⊎◌, Bool, true, false, ◌&&◌, inl, inr, Option, List, [], ◌∷◌, ◌++◌,
}
use par_seval.Scalar.Outcome.{returned, >>=-eq-returned, returned-injective}
use par_seval.Scalar.Term.{Value, Scalar, Scalars, no_scalars, scalars}
use par_seval.Scalar.Evaluate.{Assignment, evaluate, evaluate_scalars}
use par_seval.Smt.Formula.{Formula, both, holds}
use par_seval.Smt.Formula.Laws.{holds-both}
use par_seval.Smt.Valuation.{Valuation}
use par_seval.Smt.Normalizer.Lift.{Choice, restrict, append_scalar}

module _ (v : Valuation) (env : Assignment) where
  abbrev pub Says : Formula → Bool → Type 0
  Says c b = holds v.runtime env c ≡ b

  abbrev pub NoneHolds : {A : Type 0} → List (Choice A) → Type 0
  NoneHolds [] = Unit
  NoneHolds ((c, a) ∷ rest) = Says c false × NoneHolds rest

  -- One condition holds, and its term is good.
  abbrev pub Picks : {A : Type 0} → (A → Type 0) → List (Choice A) → Type 0
  Picks G [] = ⊥
  Picks G ((c, a) ∷ rest) =
      record { 0 : Says c true; 1 : G a; 2 : NoneHolds rest }
      ⊎ record { 0 : Says c false; 1 : Picks G rest }

  pub NoneHolds-append :
      {A : Type 0} (xs ys : List (Choice A)) → NoneHolds xs → NoneHolds ys → NoneHolds (xs ++ ys)
  NoneHolds-append [] ys h k = k
  NoneHolds-append ((c, a) ∷ xs) ys (p, h) k = (p, NoneHolds-append xs ys h k)

  pub Picks-append_left :
      {A : Type 0} (G : A → Type 0) (xs ys : List (Choice A))
      → Picks G xs
      → NoneHolds ys
      → Picks G (xs ++ ys)
  Picks-append_left G [] ys h k = absurd h
  Picks-append_left G ((c, a) ∷ xs) ys (inl (p, g, n)) k = inl (p, g, NoneHolds-append xs ys n k)
  Picks-append_left G ((c, a) ∷ xs) ys (inr (p, h)) k = inr (p, Picks-append_left G xs ys h k)

  pub Picks-append_right :
      {A : Type 0} (G : A → Type 0) (xs ys : List (Choice A))
      → NoneHolds xs
      → Picks G ys
      → Picks G (xs ++ ys)
  Picks-append_right G [] ys h k = k
  Picks-append_right G ((c, a) ∷ xs) ys (p, h) k = inr (p, Picks-append_right G xs ys h k)

  pub both-true : (c d : Formula) (b : Bool) → Says c true → Says d b → Says (both c d) b
  both-true c d b p q = holds-both v.runtime env c d ∙ rw (p, q)

  pub both-false : (c d : Formula) → Says c false → Says (both c d) false
  both-false c d p = holds-both v.runtime env c d ∙ rw p

  pub both-false_right : (c d : Formula) → Says d false → Says (both c d) false
  both-false_right c d p = holds-both v.runtime env c d ∙ rw p (and-false _)
    where
      and-false : (b : Bool) → b && false ≡ false
      and-false true = refl
      and-false false = refl

  pub NoneHolds-restrict :
      {A : Type 0} (c : Formula) (xs : List (Choice A)) → Says c false → NoneHolds (restrict c xs)
  unfolding restrict
  NoneHolds-restrict c [] p = tt
  NoneHolds-restrict c ((d, a) ∷ xs) p = (both-false c d p, NoneHolds-restrict c xs p)

  NoneHolds-restrict_all :
      {A : Type 0} (c : Formula) (xs : List (Choice A)) → NoneHolds xs → NoneHolds (restrict c xs)
  unfolding restrict
  NoneHolds-restrict_all c [] n = tt
  NoneHolds-restrict_all c ((d, a) ∷ xs) (p, n) =
      (both-false_right c d p, NoneHolds-restrict_all c xs n)

  pub Picks-restrict :
      {A : Type 0} (G : A → Type 0) (c : Formula) (xs : List (Choice A))
      → Says c true
      → Picks G xs
      → Picks G (restrict c xs)
  unfolding restrict
  Picks-restrict G c [] p h = h
  Picks-restrict G c ((d, a) ∷ xs) p (inl (q, g, n)) =
      inl (both-true c d true p q, g, NoneHolds-restrict_all c xs n)
  Picks-restrict G c ((d, a) ∷ xs) p (inr (q, h)) =
      inr (both-true c d false p q, Picks-restrict G c xs p h)

  abbrev pub Returns : Option Value → Scalar → Type 0
  Returns x t = evaluate v.runtime env t ≡ returned x

  abbrev pub ReturnAll : List (Option Value) → Scalars → Type 0
  ReturnAll xs ts = evaluate_scalars v.runtime env ts ≡ returned xs

  pub append_scalar-ReturnAll :
      (ts : Scalars) (xs : List (Option Value)) (t : Scalar) (x : Option Value)
      → ReturnAll xs ts
      → Returns x t
      → ReturnAll (xs ++ x ∷ []) (append_scalar ts t)
  unfolding append_scalar evaluate
  append_scalar-ReturnAll no_scalars xs t x h e =
      rw e (ap (λ ys. returned (ys ++ x ∷ [])) (returned-injective h))
  append_scalar-ReturnAll (scalars a ts) xs t x h e =
      let (y, ey, e1) = >>=-eq-returned (evaluate v.runtime env a) _ h in
      let (ys, eys, e2) = >>=-eq-returned (evaluate_scalars v.runtime env ts) _ e1 in
      rw (ey, append_scalar-ReturnAll ts ys t x eys e)
        (ap (λ zs. returned (zs ++ x ∷ [])) (returned-injective e2))
