-- ===== src/Examples/Narrowing.antt =====
-- A run of `Space.narrow` of src/parseval/instance/domain.py on numbers.
use par_seval.Common.{ℕ, ◌≡◌, refl, false, true, ◌&&◌, none, some, [], ◌∷◌, arith, ltb, ◌==◌}
use par_seval.Space.{ValueKind, above, Space, admits, narrow}
use par_seval.Space.Exact.{IsOrdered, meets, narrow-admits}
use par_seval.Space.Spent.{narrow-spent}

abbrev numbers : ValueKind
numbers = record {
  Carrier = ℕ;
  before = ltb;
  same = ◌==◌;
  matches = λ a b. false;
  alike = λ a b. a == b;
}

numbers-IsOrdered : IsOrdered numbers
numbers-IsOrdered = record {
  same_eq = λ a b h. ground arith;
  same_refl = λ a. ground arith;
  irreflexive = λ a. ground arith;
  transitive = λ a b c h g. ground arith;
  total = λ a b. ground arith;
}

abbrev at_least_three : Space numbers
at_least_three = record {
  nullable = true;
  null = none;
  equals = none;
  excluded = 7 ∷ [];
  lower = some (3, false);
  upper = some (9, true);
  patterns = [];
  rejected = [];
  tests = [];
  case_insensitive = false;
}

abbrev above_five : Space numbers
above_five = record {
  nullable = true;
  null = some false;
  equals = none;
  excluded = 7 ∷ [];
  lower = some (5, true);
  upper = some (9, true);
  patterns = [];
  rejected = [];
  tests = [];
  case_insensitive = false;
}

narrowed_to_five : narrow numbers at_least_three (above 5 true) ≡ (true, above_five)
unfolding narrow
narrowed_to_five = refl

narrow-admits_example :
    admits numbers above_five (some 6)
    ≡ admits numbers at_least_three (some 6)
      && meets numbers numbers-IsOrdered false (above 5 true) (some 6)
narrow-admits_example =
    narrow-admits numbers numbers-IsOrdered at_least_three above_five (above 5 true) (some 6)
      narrowed_to_five

narrowed_away : narrow numbers at_least_three (above 9 false) ≡ (
  false,
  record {
    nullable = true;
    null = some false;
    equals = none;
    excluded = 7 ∷ [];
    lower = some (9, false);
    upper = some (9, true);
    patterns = [];
    rejected = [];
    tests = [];
    case_insensitive = false;
  },
)
unfolding narrow
narrowed_away = refl

narrow-spent_example :
    admits numbers at_least_three (some 9)
      && meets numbers numbers-IsOrdered false (above 9 false) (some 9)
    ≡ false
narrow-spent_example =
    narrow-spent numbers numbers-IsOrdered at_least_three
      (record {
        nullable = true;
        null = some false;
        equals = none;
        excluded = 7 ∷ [];
        lower = some (9, false);
        upper = some (9, true);
        patterns = [];
        rejected = [];
        tests = [];
        case_insensitive = false;
      })
      (above 9 false) (some 9) narrowed_away
