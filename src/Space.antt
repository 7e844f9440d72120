-- ===== src/Space.antt =====
-- `Space` of src/parseval/instance/domain.py: the values that one input may still take.
pub mod Exact
pub mod Spent
use par_seval.Common.{
  ℕ, Bool, true, false, not, ◌&&◌, ◌||◌, Option, none, some, List, [], ◌∷◌, ◌++◌, if◌then◌else◌,
  ◌==◌,
}

-- The values of one scalar kind: `<` and `==`, LIKE, and equality of texts without regard to case.
pub record ValueKind : Type 1 where
  pub Carrier : Type 0
  pub before : Carrier → Carrier → Bool
  pub same : Carrier → Carrier → Bool
  pub matches : Carrier → Carrier → Bool
  pub alike : Carrier → Carrier → Bool

-- The op and value of an atom that `narrow` applies; a bound says whether it is strict.
pub data Requirement (k : ValueKind) : Type 0 where
  test : ℕ → Requirement k
  null not_null : Requirement k
  equal different like not_like : k.Carrier → Requirement k
  above below : k.Carrier → Bool → Requirement k

pub record Space (k : ValueKind) : Type 0 where
  pub nullable : Bool
  pub null : Option Bool
  pub equals : Option k.Carrier
  pub excluded : List k.Carrier
  pub lower : Option (k.Carrier × Bool)
  pub upper : Option (k.Carrier × Bool)
  pub patterns : List k.Carrier
  pub rejected : List k.Carrier
  pub tests : List ℕ
  pub case_insensitive : Bool

unfoldable pub is_exactly : Bool → Option Bool → Bool
is_exactly b none = false
is_exactly true (some c) = c
is_exactly false (some c) = not c

module _ (k : ValueKind) where
  unfoldable pub any_same : k.Carrier → List k.Carrier → Bool
  any_same x [] = false
  any_same x (e ∷ es) = k.same x e || any_same x es

  unfoldable pub any_alike : k.Carrier → List k.Carrier → Bool
  any_alike x [] = false
  any_alike x (e ∷ es) = k.alike e x || any_alike x es

  unfoldable pub matches_all : k.Carrier → List k.Carrier → Bool
  matches_all x [] = true
  matches_all x (p ∷ ps) = k.matches x p && matches_all x ps

  unfoldable pub matches_any : k.Carrier → List k.Carrier → Bool
  matches_any x [] = false
  matches_any x (p ∷ ps) = k.matches x p || matches_any x ps

  -- A value passes a lower bound, and an upper one.
  unfoldable pub passes_lower : k.Carrier → Option (k.Carrier × Bool) → Bool
  passes_lower x none = true
  passes_lower x (some (b, strict)) = not (k.before x b || (strict && k.same x b))

  unfoldable pub passes_upper : k.Carrier → Option (k.Carrier × Bool) → Bool
  passes_upper x none = true
  passes_upper x (some (b, strict)) = not (k.before b x || (strict && k.same x b))

  unfoldable pub passes_equals : k.Carrier → Option k.Carrier → Bool
  passes_equals x none = true
  passes_equals x (some e) = k.same x e

  -- `admits`
  unfoldable pub admits : Space k → Option k.Carrier → Bool
  unfolding is_exactly any_same any_alike matches_all matches_any passes_lower passes_upper
      passes_equals
  admits s none = not (is_exactly false s.null) && s.nullable
  admits s (some x) =
      not (is_exactly true s.null || any_same x s.excluded)
      && (not (s.case_insensitive && any_alike x s.excluded)
          && (passes_equals x s.equals
              && (passes_lower x s.lower
                  && (passes_upper x s.upper
                      && (matches_all x s.patterns && not (matches_any x s.rejected))))))

  -- The stricter of a bound and a new one.
  unfoldable pub raise_lower :
      Option (k.Carrier × Bool) → k.Carrier → Bool → Option (k.Carrier × Bool)
  raise_lower none v strict = some (v, strict)
  raise_lower (some (b, was)) v strict =
      if k.before b v || (k.same v b && strict) then some (v, strict) else some (b, was)

  unfoldable pub drop_upper :
      Option (k.Carrier × Bool) → k.Carrier → Bool → Option (k.Carrier × Bool)
  drop_upper none v strict = some (v, strict)
  drop_upper (some (b, was)) v strict =
      if k.before v b || (k.same v b && strict) then some (v, strict) else some (b, was)

  -- The fields after the branch for one op, with `null` set to False.
  unfoldable pub narrowed : Space k → Requirement k → Space k
  unfolding raise_lower drop_upper
  narrowed s r = record {
    nullable = s.nullable;
    null = some false;
    equals = elim r [ equal v ↦ some v | _ ↦ s.equals ];
    excluded = elim r [ different v ↦ v ∷ s.excluded | _ ↦ s.excluded ];
    lower = elim r [ above v strict ↦ raise_lower s.lower v strict | _ ↦ s.lower ];
    upper = elim r [ below v strict ↦ drop_upper s.upper v strict | _ ↦ s.upper ];
    patterns = elim r [ like v ↦ s.patterns ++ v ∷ [] | _ ↦ s.patterns ];
    rejected = elim r [ not_like v ↦ s.rejected ++ v ∷ [] | _ ↦ s.rejected ];
    tests = s.tests;
    case_insensitive = s.case_insensitive;
  }

  unfoldable pub bounds_meet : Option (k.Carrier × Bool) → Option (k.Carrier × Bool) → Bool
  bounds_meet (some (l, strict)) (some (u, tight)) =
      k.before l u || (k.same l u && not (strict || tight))
  bounds_meet _ _ = true

  -- Whether a value remains, as the end of `narrow` sees it.
  unfoldable pub remains : Space k → Bool
  unfolding admits bounds_meet
  remains s = elim s.equals [ some e ↦ admits s (some e) | none ↦ bounds_meet s.lower s.upper ]

  unfoldable pub contradicts : Space k → Requirement k → Bool
  contradicts s (equal v) = elim s.equals [ none ↦ false | some e ↦ not (k.same e v) ]
  contradicts s r = false

  unfoldable pub mentions_test : ℕ → List ℕ → Bool
  mentions_test t [] = false
  mentions_test t (u ∷ us) = t == u || mentions_test t us

  abbrev pub with_null : Space k → Option Bool → List ℕ → Space k
  with_null s n ts = record {
    nullable = s.nullable;
    null = n;
    equals = s.equals;
    excluded = s.excluded;
    lower = s.lower;
    upper = s.upper;
    patterns = s.patterns;
    rejected = s.rejected;
    tests = ts;
    case_insensitive = s.case_insensitive;
  }

  unfoldable pub narrow_value : Space k → Requirement k → Bool × Space k
  unfolding is_exactly narrowed remains contradicts
  narrow_value s r =
      if is_exactly true s.null
      then (false, s)
      else if contradicts s r
      then (false, with_null s (some false) s.tests)
      else (remains (narrowed s r), narrowed s r)

  -- `narrow`
  unfoldable pub narrow : Space k → Requirement k → Bool × Space k
  unfolding narrow_value mentions_test
  narrow s (test t) =
      (true, with_null s s.null (if mentions_test t s.tests then s.tests else s.tests ++ t ∷ []))
  narrow s null =
      if is_exactly false s.null || not s.nullable
      then (false, s)
      else (true, with_null s (some true) s.tests)
  narrow s r = narrow_value s r
