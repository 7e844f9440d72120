-- ===== src/Smt/Search.antt =====
-- `search` of src/parseval/smt/csp.py: propagation and branching over the formula of the requirements.
pub mod Measure
pub mod Solve
pub mod Sound
pub mod Propagated
pub mod Domain
pub mod Entailed
use par_seval.Common.{
  ℕ, zero, suc, ◌+◌, Bool, true, false, not, ◌&&◌, ◌||◌, Option, none, some, List, [], ◌∷◌, ◌++◌,
  if◌then◌else◌, ◌==◌, ltb, leb,
}
use par_seval.Common.Options.{◌>>=◌}
use par_seval.Scalar.Term.{Value, Predicate}
use par_seval.Scalar.Evaluate.{Assignment, evaluate_predicate, same_value}
use par_seval.Smt.Formula.{
  Formula, known, atom, conjunction, disjunction, Formulas, no_formulas, formulas, Test, eq, ne, lt,
  le, gt, ge, is_null, not_null, matches, not_matches, eq_var, ne_var, passes, value_passes,
  is_true_outcome,
}
use par_seval.Smt.Valuation.{Valuation}
use par_seval.Smt.Links.{Link, equal_link, unequal_link, consistent}

-- What the search asks of a `Space`: a new one for an input, `narrow`, and the fields `null` and
-- `equals`.
pub record Spaces : Type 1 where
  pub Carrier : Type 0
  pub fresh : ℕ → Carrier
  pub narrow : Test → Carrier → Bool × Carrier
  pub null : Carrier → Option Bool
  pub equals : Carrier → Option Value

-- The dict `spaces` and the lists `links` and `choices`.
pub record State (k : Spaces) : Type 0 where
  pub spaces : ℕ → Option k.Carrier
  pub links : List Link
  pub choices : List Formulas

unfoldable pub count : Formulas → ℕ
count no_formulas = 0
count (formulas f fs) = suc (count fs)

-- The first of the choices with the fewest options, and the others.
unfoldable pub fewest : Formulas → List Formulas → Formulas × List Formulas
unfolding count
fewest c [] = (c, [])
fewest c (d ∷ ds) =
    let rest = fewest d ds in
    if leb (count c) (count rest.0) then (c, d ∷ ds) else (rest.0, c ∷ rest.1)

unfoldable pub links_pair : ℕ → ℕ → Link → Bool
links_pair x y (equal_link a b) = (a == x && b == y) || (a == y && b == x)
links_pair x y (unequal_link a b) = false

unfoldable pub has_link : ℕ → ℕ → List Link → Bool
unfolding links_pair
has_link x y [] = false
has_link x y (l ∷ ls) = links_pair x y l || has_link x y ls

module _ (k : Spaces) where
  abbrev pub with_spaces : State k → (ℕ → Option k.Carrier) → State k
  with_spaces s m = record { spaces = m; links = s.links; choices = s.choices }

  abbrev pub with_choices : State k → List Formulas → State k
  with_choices s cs = record { spaces = s.spaces; links = s.links; choices = cs }

  -- `links.append(item)`, if the links stay consistent.
  unfoldable pub add_link : Link → State k → Option (State k)
  add_link l s =
      if consistent s.links l
      then some (record { spaces = s.spaces; links = s.links ++ l ∷ []; choices = s.choices })
      else none

  -- The space of an input, created at its first atom.
  unfoldable pub space_of : State k → ℕ → k.Carrier
  space_of s x = elim (s.spaces x) [ some c ↦ c | none ↦ k.fresh x ]

  unfoldable pub put : ℕ → k.Carrier → (ℕ → Option k.Carrier) → ℕ → Option k.Carrier
  put x c m y = if y == x then some c else m y

  unfoldable pub narrow_input : ℕ → Test → State k → Option (State k)
  unfolding space_of put
  narrow_input x t s =
      if (k.narrow t (space_of s x)).0
      then some (with_spaces s (put x (k.narrow t (space_of s x)).1 s.spaces))
      else none

  unfoldable pub apply_atom : ℕ → Test → State k → Option (State k)
  unfolding add_link narrow_input
  apply_atom x (eq_var y) s = add_link (equal_link x y) s
  apply_atom x (ne_var y) s = add_link (unequal_link x y) s
  apply_atom x t s = narrow_input x t s

  -- `narrow`: the list `pending` gives the last item of a conjunction first, and all that comes of
  -- it before the item ahead of it.
  unfoldable mutual
    unfolding apply_atom

    pub apply : Formula → State k → Option (State k)
    apply (known true) s = some s
    apply (known false) s = none
    apply (atom x t) s = apply_atom x t s
    apply (conjunction fs) s = apply_all fs s
    apply (disjunction fs) s = some (with_choices s (s.choices ++ fs ∷ []))

    pub apply_all : Formulas → State k → Option (State k)
    apply_all no_formulas s = some s
    apply_all (formulas f fs) s = apply_all fs s >>= apply f

  -- `_entailed` on a value that the space fixes.
  unfoldable pub fixed_passes : Test → Option Value → Bool
  fixed_passes t none = false
  fixed_passes t (some c) = value_passes t c

  unfoldable pub fixed_apart : Option Value → Option Value → Bool
  fixed_apart (some a) (some b) = not (same_value a b)
  fixed_apart _ _ = false

  unfoldable pub equals_of : State k → ℕ → Option Value
  equals_of s x = elim (s.spaces x) [ some c ↦ k.equals c | none ↦ none ]

  unfoldable pub null_is : Bool → State k → ℕ → Bool
  null_is b s x = elim (s.spaces x) [
    | none ↦ false
    | some c ↦ elim (k.null c) [ none ↦ false | some n ↦ if b then n else not n ]
  ]

  unfoldable pub entailed_atom : State k → ℕ → Test → Bool
  unfolding fixed_passes fixed_apart equals_of null_is has_link
  entailed_atom s x (eq_var y) = has_link x y s.links
  entailed_atom s x (ne_var y) = fixed_apart (equals_of s x) (equals_of s y)
  entailed_atom s x (passes p) = false
  entailed_atom s x is_null = null_is true s x
  entailed_atom s x not_null = null_is false s x
  entailed_atom s x t = fixed_passes t (equals_of s x)

  -- `_entailed`
  unfoldable mutual
    unfolding entailed_atom

    pub entailed : State k → Formula → Bool
    entailed s (known b) = b
    entailed s (atom x t) = entailed_atom s x t
    entailed s (conjunction fs) = all_entailed s fs
    entailed s (disjunction fs) = any_entailed s fs

    pub all_entailed : State k → Formulas → Bool
    all_entailed s no_formulas = true
    all_entailed s (formulas f fs) = entailed s f && all_entailed s fs

    pub any_entailed : State k → Formulas → Bool
    any_entailed s no_formulas = false
    any_entailed s (formulas f fs) = entailed s f || any_entailed s fs

  -- The options that do not contradict the state, each tried on a copy.
  unfoldable pub viable : State k → Formulas → Formulas
  unfolding apply
  viable s no_formulas = no_formulas
  viable s (formulas f fs) =
      let rest = viable s fs in
      elim (apply f (with_choices s [])) [ none ↦ rest | some _ ↦ formulas f rest ]

  -- A choice with no viable option, with one, and with more; the flag tells of a change.
  unfoldable pub settle : Formulas → ℕ → State k → Option (State k × Bool)
  unfolding apply count
  settle no_formulas n s = none
  settle (formulas f no_formulas) n s = apply f s >>= λ t. some (t, true)
  settle fs n s = some (with_choices s (s.choices ++ fs ∷ []), ltb (count fs) n)

  unfoldable pub settle_one : State k → Formulas → Option (State k × Bool)
  unfolding entailed viable settle
  settle_one s fs = if any_entailed s fs then some (s, true) else settle (viable s fs) (count fs) s

  -- One round of `propagate`; the choices of the state are `remaining`.
  unfoldable pub round : List Formulas → State k → Option (State k × Bool)
  unfolding settle_one
  round [] s = some (s, false)
  round (c ∷ cs) s = settle_one s c >>= λ q. round cs q.0 >>= λ r. some (r.0, q.1 || r.1)

  pub data Propagation : Type 0 where
    contradiction unfinished : Propagation
    stable : State k → Propagation

  -- `propagate`: the rounds of its loop are bounded.
  unfoldable pub propagate : ℕ → State k → Propagation
  unfolding round
  propagate zero s = unfinished
  propagate (suc n) s = elim (round s.choices (with_choices s [])) [
    | none ↦ contradiction
    | some q ↦ elim q.1 [ true ↦ propagate n q.0 | false ↦ stable q.0 ]
  ]
