-- ===== src/Uexpr/Order/Meaning.antt =====
-- The rows that an ordered term of src/parseval/uexpr/order.py stands for, whatever the rows, the
-- relations, the key order and the row functions are.
use par_seval.Common.{
  ℕ, zero, suc, ◌+◌, ◌-◌, ◌≤◌, ◌≡◌, refl, sym, ap, ◌∙◌, ◌⊎◌, inl, inr, Bool-cases, Option-cases,
  Option, none, some, List, [], ◌∷◌, ◌++◌, append_assoc, append-nil, map, take, drop, arith,
}
use par_seval.Common.Int.{pos, negsuc}
use par_seval.Uexpr.Order.{
  Term, relation, other_sequence, let_rel, seq_map, take_rows, drop_rows, slice, order_by, Count,
  literal, computed, int, bool, text, natural_literal, Operation, took, dropped, sliced,
  OrderKeyTerm, OrderNormalForm, Walk, walk, Interval, narrow_interval, interval_of, fetch_of,
  normal_form, peel, analyze_order_normal_form, rebuild_slice, rebuild_map, rebuild_normal,
  rebuild_unbound, normalize_order_term, is_sequence,
}
use mathlib.Core.Option.{some-injective}
use mathlib.Core.Path.{subst}
use native.Mathlib.Decide.{dec_le}
use par_seval.Common.Slices.{drop-drop, take-take, drop-take, map-take, map-drop}

-- What the terms outside the module mean.
pub record Semantics : Type 1 where
  pub Env : Type 0
  pub Row : Type 0
  pub bind : Env → List Row → Env
  pub relation_rows : Env → ℕ → List Row
  pub sequence_rows : Env → ℕ → List Row
  pub sort_rows : Env → List OrderKeyTerm → List Row → List Row
  pub apply : Env → ℕ → Row → Row
  pub computed_bound : Env → Count → ℕ

module _ (s : Semantics) where
  abbrev pub bound : s.Env → Count → ℕ
  bound env (literal (int (pos n))) = n
  bound env c = s.computed_bound env c

  unfoldable pub denote : s.Env → Term → List s.Row
  denote env (relation r) = s.relation_rows env r
  denote env (other_sequence r) = s.sequence_rows env r
  denote env (let_rel d t) = denote (s.bind env (denote env d)) t
  denote env (seq_map t f) = map (s.apply env f) (denote env t)
  denote env (take_rows c t) = take (bound env c) (denote env t)
  denote env (drop_rows c t) = drop (bound env c) (denote env t)
  denote env (slice o c t) = take (bound env c) (drop (bound env o) (denote env t))
  denote env (order_by t keys) = s.sort_rows env keys (denote env t)

  abbrev mapped : s.Env → Option ℕ → List s.Row → List s.Row
  mapped env none xs = xs
  mapped env (some f) xs = map (s.apply env f) xs

abbrev run_operation {ℓ} : {A : Type ℓ} → Operation → List A → List A
run_operation (took n) xs = take n xs
run_operation (dropped n) xs = drop n xs
run_operation (sliced o n) xs = take n (drop o xs)

-- The first operation is the outermost.
run {ℓ} : {A : Type ℓ} → List Operation → List A → List A
run [] xs = xs
run (op ∷ ops) xs = run_operation op (run ops xs)

abbrev cut {ℓ} : {A : Type ℓ} → Interval → List A → List A
cut i xs = elim i.stop [ none ↦ drop i.start xs | some e ↦ take (e - i.start) (drop i.start xs) ]

-- The interval of the loop starts before it ends.
abbrev IsOrdered : Interval → Type 0
IsOrdered i = elim i.stop [ none ↦ Unit {0} | some e ↦ i.start ≤ e ]

abbrev interval : ℕ → Option ℕ → Interval
interval start stop = record { start = start; stop = stop }

narrow_interval-IsOrdered :
    (start : ℕ) (stop : Option ℕ) (op : Operation)
    → IsOrdered (interval start stop)
    → IsOrdered (narrow_interval (interval start stop) op)
unfolding narrow_interval
narrow_interval-IsOrdered start none (dropped n) h = tt
narrow_interval-IsOrdered start (some e) (dropped n) h = omega arith
narrow_interval-IsOrdered start none (took n) h = omega arith
narrow_interval-IsOrdered start (some e) (took n) h = omega arith
narrow_interval-IsOrdered start none (sliced o n) h = omega arith
narrow_interval-IsOrdered start (some e) (sliced o n) h = omega arith

module _ {ℓ} {A : Type ℓ} where
  -- A window of a window, as one window.
  take-drop_eq :
      (n m k l : ℕ) (xs : List A)
      → n ≡ m
      → (k ≡ l) ⊎ (n ≡ 0)
      → take n (drop k xs) ≡ take m (drop l xs)
  take-drop_eq n m k l xs p (inl q) = cc
  take-drop_eq n m k l xs p (inr q) = rw (← p, q) refl

  cut-narrow_interval :
      (start : ℕ) (stop : Option ℕ) (op : Operation) (xs : List A)
      → IsOrdered (interval start stop)
      → cut (narrow_interval (interval start stop) op) xs
        ≡ run_operation op (cut (interval start stop) xs)
  unfolding narrow_interval
  cut-narrow_interval start none (dropped n) xs h =
      rw drop-drop (ap (λ k. drop k xs) {x = start + n} (omega arith))
  cut-narrow_interval start (some e) (dropped n) xs h =
      rw (drop-take, drop-drop)
        (take-drop_eq _ _ _ _ xs (omega arith)
          (elim (dec_le (start + n) e) [ yes q ↦ inl (omega arith) | no q ↦ inr (omega arith) ]))
  cut-narrow_interval start none (took n) xs h = take-drop_eq _ _ _ _ xs (omega arith) (inl refl)
  cut-narrow_interval start (some e) (took n) xs h =
      rw take-take (take-drop_eq _ _ _ _ xs (omega arith) (inl refl))
  cut-narrow_interval start none (sliced o n) xs h =
      rw drop-drop (take-drop_eq _ _ _ _ xs (omega arith) (inl (omega arith)))
  cut-narrow_interval start (some e) (sliced o n) xs h =
      rw (drop-take, drop-drop, take-take)
        (take-drop_eq _ _ _ _ xs (omega arith)
          (elim (dec_le (start + o) e) [ yes q ↦ inl (omega arith) | no q ↦ inr (omega arith) ]))

run-append {ℓ} :
    {A : Type ℓ} (ops : List Operation) (op : Operation) (xs : List A)
    → run (ops ++ op ∷ []) xs ≡ run ops (run_operation op xs)
unfolding run
run-append [] op xs = refl
run-append (o ∷ ops) op xs = ap (run_operation o) (run-append ops op xs)

map-run {ℓ κ} :
    {A : Type ℓ} {B : Type κ} (f : A → B) (ops : List Operation) (xs : List A)
    → map f (run ops xs) ≡ run ops (map f xs)
unfolding run
map-run f [] xs = refl
map-run f (took n ∷ ops) xs = map-take f n (run ops xs) ∙ ap (take n) (map-run f ops xs)
map-run f (dropped n ∷ ops) xs = map-drop f n (run ops xs) ∙ ap (drop n) (map-run f ops xs)
map-run f (sliced o n ∷ ops) xs =
    map-take f n (drop o (run ops xs))
    ∙ ap (take n) (map-drop f o (run ops xs) ∙ ap (drop o) (map-run f ops xs))

interval_of-IsOrdered : (ops : List Operation) → IsOrdered (interval_of ops)
unfolding interval_of
interval_of-IsOrdered [] = tt
interval_of-IsOrdered (op ∷ ops) =
    narrow_interval-IsOrdered (interval_of ops).start (interval_of ops).stop op
      (interval_of-IsOrdered ops)

cut-interval_of {ℓ} :
    {A : Type ℓ} (ops : List Operation) (xs : List A) → cut (interval_of ops) xs ≡ run ops xs
unfolding interval_of run
cut-interval_of [] xs = refl
cut-interval_of (op ∷ ops) xs =
    cut-narrow_interval (interval_of ops).start (interval_of ops).stop op xs
      (interval_of-IsOrdered ops)
    ∙ ap (run_operation op) (cut-interval_of ops xs)

none≢some {ℓ} : {A : Type ℓ} {a : A} → none ≡ some a → ⊥
none≢some h = cc

cons≢nil {ℓ} : {A : Type ℓ} {a : A} {xs : List A} → a ∷ xs ≡ [] → ⊥
cons≢nil h = cc

normal_form-bindings :
    (bs : List Term) (t : Term) (m : Option ℕ) (ops : List Operation) (n : OrderNormalForm)
    → normal_form bs (record { current = t; mapper = m; operations = ops }) ≡ some n
    → n.bindings ≡ bs
unfolding normal_form
normal_form-bindings bs (order_by t keys) m ops n h =
    sym (ap (λ v. v.bindings) (some-injective _ _ h))
normal_form-bindings bs t m ops n h = cc

walked-bindings :
    (bs : List Term) (o : Option Walk) (n : OrderNormalForm)
    → (elim o [ none ↦ none | some w ↦ normal_form bs w ]) ≡ some n
    → n.bindings ≡ bs
walked-bindings bs none n h = cc
walked-bindings bs (some w) n h = normal_form-bindings bs w.current w.mapper w.operations n h

-- The bindings met so far are the first ones of the result.
peel-bindings :
    (t : Term) (bs : List Term) (n : OrderNormalForm)
    → peel t bs ≡ some n
    → (ds : List Term) × (n.bindings ≡ bs ++ ds)
unfolding peel
peel-bindings (let_rel d t) bs n h =
    let (ds, e) = peel-bindings t (bs ++ d ∷ []) n h in (d ∷ ds, e ∙ append_assoc bs (d ∷ []) ds)
peel-bindings t bs n h = ([], walked-bindings bs (walk t none []) n h ∙ sym (append-nil bs))

-- The rows that a walk stands for.
abbrev observed : (s : Semantics) (env : s.Env) → Walk → List s.Row
observed s env w = mapped s env w.mapper (run w.operations (denote s env w.current))

module _ (s : Semantics) (env : s.Env) where
  natural-bound : (c : Count) (n : ℕ) → natural_literal c ≡ some n → bound s env c ≡ n
  unfolding natural_literal
  natural-bound (literal (int (pos m))) n h = cc
  natural-bound (literal (int (negsuc m))) n h = cc
  natural-bound (literal (bool b)) n h = cc
  natural-bound (literal (text b)) n h = cc
  natural-bound (computed m) n h = cc

  -- What the walk has gathered, applied to what it has not read, is the whole term.
  walk_sound :
      (t : Term) (m : Option ℕ) (ops : List Operation) (w : Walk)
      → walk t m ops ≡ some w
      → mapped s env m (run ops (denote s env t)) ≡ observed s env w
  unfolding walk denote
  walk_sound (seq_map t f) none ops w h =
      sym (map-run (s.apply env f) ops (denote s env t)) ∙ walk_sound t (some f) ops w h
  walk_sound (seq_map t f) (some g) ops w h = cc
  walk_sound (take_rows c t) m ops w h = elim (Option-cases (natural_literal c)) [
    | inl e ↦ absurd (none≢some (rw (e, walk) at h))
    | inr (n, e) ↦
        rw (natural-bound c n e, ← run-append ops (took n) (denote s env t))
          (walk_sound t m (ops ++ took n ∷ []) w (rw (e, walk) at h))
  ]
  walk_sound (drop_rows c t) m ops w h = elim (Option-cases (natural_literal c)) [
    | inl e ↦ absurd (none≢some (rw (e, walk) at h))
    | inr (n, e) ↦
        rw (natural-bound c n e, ← run-append ops (dropped n) (denote s env t))
          (walk_sound t m (ops ++ dropped n ∷ []) w (rw (e, walk) at h))
  ]
  walk_sound (slice o c t) m ops w h = elim (Option-cases (natural_literal o)) [
    | inl e ↦ absurd (none≢some (rw (e, walk) at h))
    | inr (k, e) ↦ elim (Option-cases (natural_literal c)) [
      | inl e' ↦ absurd (none≢some (rw (e, e', walk) at h))
      | inr (n, e') ↦
          rw
            (
              natural-bound o k e,
              natural-bound c n e',
              ← run-append ops (sliced k n) (denote s env t),
            )
            (walk_sound t m (ops ++ sliced k n ∷ []) w (rw (e, e', walk) at h))
    ]
  ]
  walk_sound (relation r) m ops w h = ap (observed s env) (some-injective _ _ h)
  walk_sound (other_sequence r) m ops w h = ap (observed s env) (some-injective _ _ h)
  walk_sound (let_rel d t) m ops w h = ap (observed s env) (some-injective _ _ h)
  walk_sound (order_by t keys) m ops w h = ap (observed s env) (some-injective _ _ h)

  denote-rebuild_slice :
      (i : Interval) (t : Term)
      → denote s env (rebuild_slice i.start (fetch_of i) t) ≡ cut i (denote s env t)
  unfolding rebuild_slice fetch_of denote
  denote-rebuild_slice i t = denote-slice i.start i.stop
    where
      denote-slice :
          (start : ℕ) (stop : Option ℕ)
          → denote s env (rebuild_slice start (fetch_of (interval start stop)) t)
            ≡ cut (interval start stop) (denote s env t)
      denote-slice zero none = refl
      denote-slice (suc n) none = refl
      denote-slice n (some e) = refl

  denote-rebuild_map :
      (m : Option ℕ) (t : Term) → denote s env (rebuild_map m t) ≡ mapped s env m (denote s env t)
  unfolding rebuild_map denote
  denote-rebuild_map none t = refl
  denote-rebuild_map (some f) t = refl

  -- A walk that ends at an ORDER BY is rebuilt with the same rows.
  normal_form_sound :
      (t : Term) (m : Option ℕ) (ops : List Operation) (n : OrderNormalForm)
      → normal_form [] (record { current = t; mapper = m; operations = ops }) ≡ some n
      → denote s env (rebuild_normal n)
        ≡ observed s env (record { current = t; mapper = m; operations = ops })
  unfolding normal_form rebuild_normal
  normal_form_sound (order_by t keys) m ops n h =
      subst
        (λ v.
          denote s env (rebuild_normal v)
          ≡ mapped s env m (run ops (denote s env (order_by t keys))))
        (some-injective _ _ h)
        (denote-rebuild_map m
            (rebuild_slice (interval_of ops).start (fetch_of (interval_of ops)) (order_by t keys))
          ∙ ap (mapped s env m) (
              denote-rebuild_slice (interval_of ops) (order_by t keys)
              ∙ cut-interval_of ops (denote s env (order_by t keys))))
  normal_form_sound t m ops n h = cc

  walked_sound :
      (t : Term) (n : OrderNormalForm) (w : Walk)
      → walk t none [] ≡ some w
      → normal_form [] w ≡ some n
      → denote s env (rebuild_normal n) ≡ denote s env t
  walked_sound t n w e h =
      normal_form_sound w.current w.mapper w.operations n h
      ∙ sym (unfold run in walk_sound t none [] w e)

  peeled_sound :
      (t : Term) (o : Option Walk) (n : OrderNormalForm)
      → walk t none [] ≡ o
      → (elim o [ none ↦ none | some w ↦ normal_form [] w ]) ≡ some n
      → denote s env (rebuild_normal n) ≡ denote s env t
  peeled_sound t none n e h = absurd (none≢some h)
  peeled_sound t (some w) n e h = walked_sound t n w e h

  peel_sound :
      (t : Term) (n : OrderNormalForm)
      → peel t [] ≡ some n
      → n.bindings ≡ []
      → denote s env (rebuild_normal n) ≡ denote s env t
  unfolding peel
  peel_sound (let_rel d t) n h b = absurd (cons≢nil (sym (peel-bindings t (d ∷ []) n h).1 ∙ b))
  peel_sound t n h b = peeled_sound t (walk t none []) n refl h

  rebuild_unbound_sound :
      (t : Term) (source : Term) (keys : List OrderKeyTerm) (offset : ℕ) (fetch mapper : Option ℕ)
      (bs : List Term)
      → let n : OrderNormalForm = (record {
        source = source;
        keys = keys;
        offset = offset;
        fetch = fetch;
        mapper = mapper;
        bindings = bs;
      }) in
        peel t [] ≡ some n → denote s env (rebuild_unbound t (some n)) ≡ denote s env t
  unfolding rebuild_unbound
  rebuild_unbound_sound t source keys offset fetch mapper [] h = peel_sound t _ h refl
  rebuild_unbound_sound t source keys offset fetch mapper (d ∷ ds) h = refl

  analyzed_sound :
      (t : Term) (o : Option OrderNormalForm)
      → analyze_order_normal_form t ≡ o
      → denote s env (rebuild_unbound t o) ≡ denote s env t
  unfolding analyze_order_normal_form
  analyzed_sound t none h = unfold rebuild_unbound in refl
  analyzed_sound t (some n) h = elim (Bool-cases (is_sequence t)) [
    | inl e ↦
        rebuild_unbound_sound t n.source n.keys n.offset n.fetch n.mapper n.bindings (rw e at h)
    | inr e ↦ absurd (none≢some (rw e at h))
  ]

  -- Replacing an ordered term by its normal form keeps its rows and their order.
  pub denote-normalize_order_term :
      (t : Term) → denote s env (normalize_order_term t) ≡ denote s env t
  unfolding normalize_order_term
  denote-normalize_order_term t = analyzed_sound t (analyze_order_normal_form t) refl
