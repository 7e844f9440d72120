-- ===== src/Uexpr/Order/Canonical.antt =====
-- The normal form of src/parseval/uexpr/order.py is read back as it was built.
use par_seval.Common.{
  ℕ, zero, suc, ◌+◌, ◌≡◌, refl, sym, ap, Option, none, some, List, [], ◌∷◌, arith,
}
use mathlib.Core.Path.{subst}
use par_seval.Uexpr.Order.{
  Term, OrderKeyTerm, OrderNormalForm, analyze_order_normal_form, rebuild_normal, rebuild_unbound,
  normalize_order_term,
}

module _ (source : Term) (keys : List OrderKeyTerm) where
  abbrev form : ℕ → Option ℕ → Option ℕ → OrderNormalForm
  form offset fetch mapper = record {
    source = source;
    keys = keys;
    offset = offset;
    fetch = fetch;
    mapper = mapper;
    bindings = [];
  }

  form_eq :
      {o o' f f' : ℕ} (m : Option ℕ)
      → o ≡ o'
      → f ≡ f'
      → some (form o (some f) m) ≡ some (form o' (some f') m)
  form_eq m p q = λ i. some (form (p i) (some (q i)) m)

  analyze-rebuild_form :
      (offset : ℕ) (fetch mapper : Option ℕ)
      → analyze_order_normal_form (rebuild_normal (form offset fetch mapper))
        ≡ some (form offset fetch mapper)
  unfolding analyze_order_normal_form rebuild_normal
  analyze-rebuild_form zero none none = refl
  analyze-rebuild_form zero none (some m) = refl
  analyze-rebuild_form (suc n) none none =
      ap (λ k. some (form k none none)) {x = 0 + suc n} (omega arith)
  analyze-rebuild_form (suc n) none (some m) =
      ap (λ k. some (form k none (some m))) {x = 0 + suc n} (omega arith)
  analyze-rebuild_form n (some f) none = form_eq none (omega arith) (omega arith)
  analyze-rebuild_form n (some f) (some m) = form_eq (some m) (omega arith) (omega arith)

-- A normal form without bindings is what the analysis finds in the term built from it.
pub analyze-rebuild_normal :
    (n : OrderNormalForm) → n.bindings ≡ [] → analyze_order_normal_form (rebuild_normal n) ≡ some n
analyze-rebuild_normal n h =
    subst (λ v. analyze_order_normal_form (rebuild_normal v) ≡ some v)
      (λ i. record n { bindings = sym h i })
      (analyze-rebuild_form n.source n.keys n.offset n.fetch n.mapper)

rebuilt_idem :
    (t source : Term) (keys : List OrderKeyTerm) (offset : ℕ) (fetch mapper : Option ℕ)
    (bs : List Term)
    → analyze_order_normal_form t
      ≡ some (record {
        source = source;
        keys = keys;
        offset = offset;
        fetch = fetch;
        mapper = mapper;
        bindings = bs;
      })
    → let n : OrderNormalForm = (record {
      source = source;
      keys = keys;
      offset = offset;
      fetch = fetch;
      mapper = mapper;
      bindings = bs;
    }) in
      normalize_order_term (rebuild_unbound t (some n)) ≡ rebuild_unbound t (some n)
unfolding normalize_order_term rebuild_unbound
rebuilt_idem t source keys offset fetch mapper [] h =
    rw (analyze-rebuild_form source keys offset fetch mapper) refl
rebuilt_idem t source keys offset fetch mapper (b ∷ bs) h = rw h refl

rebuild_unbound_idem :
    (t : Term) (o : Option OrderNormalForm)
    → analyze_order_normal_form t ≡ o
    → normalize_order_term (rebuild_unbound t o) ≡ rebuild_unbound t o
unfolding normalize_order_term rebuild_unbound
rebuild_unbound_idem t none h = rw h refl
rebuild_unbound_idem t (some n) h =
    rebuilt_idem t n.source n.keys n.offset n.fetch n.mapper n.bindings h

-- Normalizing a normalized term changes nothing.
pub normalize_order_term_idem :
    (t : Term) → normalize_order_term (normalize_order_term t) ≡ normalize_order_term t
normalize_order_term_idem t =
    unfold normalize_order_term in rebuild_unbound_idem t (analyze_order_normal_form t) refl
