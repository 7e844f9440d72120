-- ===== src/Terms/Binding/Shift.antt =====
-- `shift_vars` of src/parseval/terms/binding.py: the meaning of shifted terms, and shifts upwards and
-- back.
use par_seval.Common.{
  ℕ, suc, ◌+◌, arith, if◌then◌else◌, ◌≡◌, refl, sym, ap, ap₂, ◌∙◌, fun_ext, some, ◌∷◌, ltb,
}
use par_seval.Common.Int.{ℤ, pos, ◌+ℤ◌, ◌-ℤ◌}
use par_seval.Common.Options.{>>=-eq-some}
use mathlib.Core.Option.{some-injective}
use par_seval.Terms.Binding.{
  Kind, Term, row_var, rel_var, node, Terms, no_terms, terms, row_binders_in_child,
  relation_binders_in_child, landed, moved, shift_depth, shift_vars, shift_children,
}
use par_seval.Terms.Binding.Indices.{
  Semantics, push, denote, denote_children, Follows, Tracks, Follows-Tracks, push-Tracks,
  row_binders_cases, relation_binders_cases,
}

module _ (s : Semantics) (dr dl : ℤ) where
  mutual
    unfolding shift_vars denote

    pub shifted_term :
        (rc lc : ℕ) (t t' : Term) (rows rows' : ℕ → s.Row) (rels rels' : ℕ → s.Meaning)
        → Tracks dr rc rows rows'
        → Tracks dl lc rels rels'
        → shift_vars dr dl rc lc t ≡ some t'
        → denote s rows' rels' t' ≡ denote s rows rels t
    shifted_term rc lc (row_var d k) t' rows rows' rels rels' f g h =
        let (e, he, h1) = >>=-eq-some (shift_depth dr rc d) _ h in
        ap (denote s rows' rels') (sym (some-injective _ _ h1)) ∙ ap s.of_row (f d e he)
    shifted_term rc lc (rel_var d) t' rows rows' rels rels' f g h =
        let (e, he, h1) = >>=-eq-some (shift_depth dl lc d) _ h in
        ap (denote s rows' rels') (sym (some-injective _ _ h1)) ∙ g d e he
    shifted_term rc lc (node k l ts) t' rows rows' rels rels' f g h =
        let (us, hu, h1) = >>=-eq-some (shift_children dr dl rc lc k 0 ts) _ h in
        ap (denote s rows' rels') (sym (some-injective _ _ h1))
        ∙ ap (s.interpret k l) (shifted_terms rc lc k 0 ts us rows rows' rels rels' f g hu)

    shifted_terms :
        (rc lc : ℕ) (k : Kind) (i : ℕ) (ts us : Terms) (rows rows' : ℕ → s.Row)
        (rels rels' : ℕ → s.Meaning)
        → Tracks dr rc rows rows'
        → Tracks dl lc rels rels'
        → shift_children dr dl rc lc k i ts ≡ some us
        → denote_children s rows' rels' k i us ≡ denote_children s rows rels k i ts
    shifted_terms rc lc k i no_terms us rows rows' rels rels' f g h =
        ap (denote_children s rows' rels' k i) (sym (some-injective _ _ h))
    shifted_terms rc lc k i (terms t ts) us rows rows' rels rels' f g h =
        let (u, hu, h1) =
          >>=-eq-some
            (shift_vars dr dl (rc + row_binders_in_child k i) (lc + relation_binders_in_child k i)
              t)
            _ h in
        let (vs, hv, h2) = >>=-eq-some (shift_children dr dl rc lc k (suc i) ts) _ h1 in
        ap (denote_children s rows' rels' k i) (sym (some-injective _ _ h2))
        ∙ ap₂ ◌∷◌
            (fun_ext (λ r. fun_ext (λ m.
              shifted_term (rc + row_binders_in_child k i) (lc + relation_binders_in_child k i) t u
                (push (row_binders_in_child k i) r rows) (push (row_binders_in_child k i) r rows')
                (push (relation_binders_in_child k i) m rels)
                (push (relation_binders_in_child k i) m rels')
                (push-Tracks dr rc (row_binders_in_child k i) r rows rows' (row_binders_cases k i)
                  f)
                (push-Tracks dl lc (relation_binders_in_child k i) m rels rels'
                  (relation_binders_cases k i) g)
                hu)))
            (shifted_terms rc lc k (suc i) ts vs rows rows' rels rels' f g hv)

  -- When a shift succeeds, the shifted term means under the second assignments what the term means
  -- under the first, if they agree below the cutoffs and the second are moved by the deltas from there.
  pub denote-shift_vars :
      (rc lc : ℕ) (t t' : Term) (rows rows' : ℕ → s.Row) (rels rels' : ℕ → s.Meaning)
      → Follows dr rc rows rows'
      → Follows dl lc rels rels'
      → shift_vars dr dl rc lc t ≡ some t'
      → denote s rows' rels' t' ≡ denote s rows rels t
  denote-shift_vars rc lc t t' rows rows' rels rels' f g =
      shifted_term rc lc t t' rows rows' rels rels' (Follows-Tracks dr rc rows rows' f)
        (Follows-Tracks dl lc rels rels' g)

-- A depth shifted upwards comes back when it is shifted downwards.
shift_depth_back :
    (a c d : ℕ)
    → (e : ℕ) × (shift_depth (pos a) c d ≡ some e) × (shift_depth (pos 0 -ℤ pos a) c e ≡ some d)
unfolding shift_depth moved landed ◌+ℤ◌ ◌-ℤ◌
shift_depth_back a c d = (if ltb d c then d else d + a, ground arith, ground arith)

module _ (a b : ℕ) where
  -- The term shifted upwards, which shifts back.
  abbrev Back : ℕ → ℕ → Term → Type 0
  Back rc lc t =
      (t' : Term) × (shift_vars (pos a) (pos b) rc lc t ≡ some t')
      × (shift_vars (pos 0 -ℤ pos a) (pos 0 -ℤ pos b) rc lc t' ≡ some t)

  mutual
    unfolding shift_vars

    upward_term : (rc lc : ℕ) (t : Term) → Back rc lc t
    upward_term rc lc (row_var d k) =
        let (e, u, v) = shift_depth_back a rc d in (row_var e k, rw u refl, rw v refl)
    upward_term rc lc (rel_var d) =
        let (e, u, v) = shift_depth_back b lc d in (rel_var e, rw u refl, rw v refl)
    upward_term rc lc (node k l ts) =
        let (us, u, v) = upward_terms rc lc k 0 ts in (node k l us, rw u refl, rw v refl)

    upward_terms :
        (rc lc : ℕ) (k : Kind) (i : ℕ) (ts : Terms)
        → (us : Terms) × (shift_children (pos a) (pos b) rc lc k i ts ≡ some us)
          × (shift_children (pos 0 -ℤ pos a) (pos 0 -ℤ pos b) rc lc k i us ≡ some ts)
    upward_terms rc lc k i no_terms = (no_terms, refl, refl)
    upward_terms rc lc k i (terms t ts) =
        let (t', u, v) =
          upward_term (rc + row_binders_in_child k i) (lc + relation_binders_in_child k i) t in
        let (us, us_up, us_down) = upward_terms rc lc k (suc i) ts in
        (terms t' us, rw (u, us_up) refl, rw (v, us_down) refl)

-- Shifting by nonnegative deltas succeeds on every term, and shifting the result by their negatives
-- succeeds and gives the term back.
pub shift_vars_back :
    (a b rc lc : ℕ) (t : Term)
    → (t' : Term) × (shift_vars (pos a) (pos b) rc lc t ≡ some t')
      × (shift_vars (pos 0 -ℤ pos a) (pos 0 -ℤ pos b) rc lc t' ≡ some t)
shift_vars_back = upward_term
