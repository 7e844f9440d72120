-- ===== src/Smt/Links.antt =====
-- src/parseval/smt/csp.py, `_consistent`: equalities and disequalities between inputs.
pub mod Forest
pub mod Consistency
use par_seval.Common.{
  ℕ, zero, suc, Bool, true, false, not, ◌&&◌, ◌||◌, List, [], ◌∷◌, ◌++◌, length, if◌then◌else◌,
  ◌==◌,
}

-- An atom with the op `eqvar` or `nevar`, its input and its value.
pub data Link : Type 0 where
  equal_link unequal_link : ℕ → ℕ → Link

-- The dict `parent` read by `parent.get(item, item)`.
abbrev pub Parents : Type 0
Parents = ℕ → ℕ

abbrev pub no_parents : Parents
no_parents x = x

-- `parent[a] = b`
unfoldable pub redirect : Parents → ℕ → ℕ → Parents
redirect p a b x = if x == a then b else p x

-- `root`: the rounds of its loop are bounded.
unfoldable pub root : ℕ → Parents → ℕ → ℕ
root zero p x = x
root (suc n) p x = if p x == x then x else root n p (p x)

-- The loop over the equalities.
unfoldable pub forest : ℕ → Parents → List Link → Parents
unfolding redirect root
forest n p [] = p
forest n p (equal_link a b ∷ ls) = forest n (redirect p (root n p a) (root n p b)) ls
forest n p (unequal_link a b ∷ ls) = forest n p ls

unfoldable pub clashes : ℕ → Parents → List Link → Bool
unfolding root
clashes n p [] = false
clashes n p (equal_link a b ∷ ls) = clashes n p ls
clashes n p (unequal_link a b ∷ ls) = root n p a == root n p b || clashes n p ls

-- `_consistent`: no path is longer than the number of the links.
unfoldable pub consistent : List Link → Link → Bool
unfolding forest clashes
consistent ls new =
    let every = ls ++ new ∷ [] in
    let n = length every in not (clashes n (forest n no_parents every) every)
