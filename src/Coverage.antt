-- ===== src/Coverage.antt =====
-- src/parseval/generator/coverage.py: the outcomes that an execution reaches, and the bounded
-- witnesses kept for them. Sets and dicts are functions of their keys.
pub mod Bounds
pub mod Sites
use par_seval.Common.{
  ℕ, zero, suc, ◌+◌, Bool, true, false, not, ◌&&◌, ◌||◌, Option, none, some, List, [], ◌∷◌, ◌++◌,
  if◌then◌else◌, ◌==◌, leb, ltb,
}

-- `Target`: an outcome (a code) of the decision at a site.
pub record Target : Type 0 where
  pub site : ℕ
  pub outcome : ℕ

unfoldable pub same_target : Target → Target → Bool
same_target a b = a.site == b.site && a.outcome == b.outcome

-- Adding to a set, and assigning to a key of a dict.
unfoldable pub insert : Target → (Target → Bool) → Target → Bool
unfolding same_target
insert t s u = same_target u t || s u

unfoldable pub assign : Target → List ℕ → (Target → List ℕ) → Target → List ℕ
unfolding same_target
assign t ws m u = if same_target u t then ws else m u

pub record Coverage : Type 0 where
  pub reached : Target → Bool
  pub covered : Target → Bool
  pub stable : Target → Bool
  pub witnesses : Target → List ℕ
  pub candidates : Target → List ℕ

abbrev pub initial : Coverage
initial = record {
  reached = λ t. false;
  covered = λ t. false;
  stable = λ t. false;
  witnesses = λ t. [];
  candidates = λ t. [];
}

unfoldable pub uncovered : Coverage → Target → Bool
uncovered c t = c.reached t && not (c.covered t)

unfoldable pub count : List ℕ → ℕ
count [] = 0
count (w ∷ ws) = suc (count ws)

unfoldable pub is_kept : ℕ → List ℕ → Bool
is_kept w [] = false
is_kept w (x ∷ ws) = w == x || is_kept w ws

-- `Recorder`: the limit, the outcome whose conditions are all kept, the term TRUE and the test for
-- constants of the valuation.
pub record Recorder : Type 0 where
  pub limit : ℕ
  pub every : Option Target
  pub true_term : ℕ
  pub is_constant : ℕ → Bool

module _ (r : Recorder) where
  unfoldable pub is_every : Target → Bool
  unfolding same_target
  is_every t = elim r.every [ none ↦ false | some e ↦ same_target t e ]

  -- `wants`
  unfoldable pub wants : Coverage → Target → Bool → Bool
  unfolding count is_every
  wants c t is_covered =
      if is_covered || c.covered t
      then false
      else is_every t || ltb (count (c.candidates t)) r.limit

  unfoldable pub store_of : Coverage → Bool → Target → List ℕ
  store_of c is_covered t = if is_covered then c.witnesses t else c.candidates t

  -- The append at the end of `observe`.
  unfoldable pub keep : Coverage → Bool → Target → ℕ → Coverage
  unfolding assign store_of
  keep c true t w = record {
    reached = c.reached;
    covered = c.covered;
    stable = c.stable;
    witnesses = assign t (c.witnesses t ++ w ∷ []) c.witnesses;
    candidates = c.candidates;
  }
  keep c false t w = record {
    reached = c.reached;
    covered = c.covered;
    stable = c.stable;
    witnesses = c.witnesses;
    candidates = assign t (c.candidates t ++ w ∷ []) c.candidates;
  }

  -- What `observe` does with a condition it has built.
  unfoldable pub record_condition : Coverage → Bool → Target → ℕ → Coverage
  unfolding insert assign keep is_kept store_of
  record_condition c is_covered t w =
      if w == r.true_term
      then record {
        reached = c.reached;
        covered = c.covered;
        stable = insert t c.stable;
        witnesses = assign t [] c.witnesses;
        candidates = c.candidates;
      }
      else if r.is_constant w || is_kept w (store_of c is_covered t)
      then c
      else keep c is_covered t w

  unfoldable pub mark_reached : Coverage → Target → Coverage
  unfolding insert
  mark_reached c t = record {
    reached = insert t c.reached;
    covered = c.covered;
    stable = c.stable;
    witnesses = c.witnesses;
    candidates = c.candidates;
  }

  unfoldable pub mark_covered : Coverage → Bool → Target → Coverage
  unfolding insert
  mark_covered c is_covered t = record {
    reached = c.reached;
    covered = if is_covered then insert t c.covered else c.covered;
    stable = c.stable;
    witnesses = c.witnesses;
    candidates = c.candidates;
  }

  -- `observe`
  unfoldable pub observe : Coverage → Target → Bool → ℕ → Coverage
  unfolding mark_reached mark_covered is_every count store_of record_condition
  observe c t is_covered condition =
      if c.stable t
      then mark_reached c t
      else if not (is_every t) && leb r.limit (count (store_of c is_covered t))
      then mark_covered (mark_reached c t) is_covered t
      else record_condition (mark_covered (mark_reached c t) is_covered t) is_covered t condition
