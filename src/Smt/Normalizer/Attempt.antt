-- ===== src/Smt/Normalizer/Attempt.antt =====
-- The exceptions of src/parseval/smt/csp.py, and the three outcomes of a predicate.
use par_seval.Common.{◌≡◌, refl, Bool, true, false, Option, none, some}

-- `Unsupported`, `_Exhausted`, and the KeyError of a lookup in a dict of truth values.
pub data Attempt {ℓ} (A : Type ℓ) : Type ℓ where
  done : A → Attempt A
  unsupported exhausted key_error : Attempt A

infixl 5 ◌>>=◌
abbrev pub ◌>>=◌ {ℓ κ} : {A : Type ℓ} {B : Type κ} → Attempt A → (A → Attempt B) → Attempt B
done a >>= f = f a
unsupported >>= f = unsupported
exhausted >>= f = exhausted
key_error >>= f = key_error

pub >>=-eq-done {ℓ κ} :
    {A : Type ℓ} {B : Type κ} (m : Attempt A) (f : A → Attempt B) {b : B}
    → (m >>= f) ≡ done b
    → (a : A) × (m ≡ done a) × (f a ≡ done b)
>>=-eq-done (done a) f h = (a, refl, h)
>>=-eq-done unsupported f h = cc
>>=-eq-done exhausted f h = cc
>>=-eq-done key_error f h = cc

pub done-injective {ℓ} : {A : Type ℓ} {a b : A} → done a ≡ done b → a ≡ b
done-injective h = cc

-- `try: … except Unsupported: …`
unfoldable pub recover {ℓ} : {A : Type ℓ} → Attempt A → Attempt A → Attempt A
recover unsupported second = second
recover first second = first

pub data Wanted : Type 0 where
  want_true want_false want_unknown : Wanted

unfoldable pub opposite : Wanted → Wanted
opposite want_true = want_false
opposite want_false = want_true
opposite want_unknown = want_unknown

-- `value is {"true": True, "false": False, "unknown": None}[outcome]`
unfoldable pub is_outcome : Wanted → Option Bool → Bool
is_outcome want_true (some true) = true
is_outcome want_false (some false) = true
is_outcome want_unknown none = true
is_outcome _ _ = false
