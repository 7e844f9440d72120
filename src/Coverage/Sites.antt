-- ===== src/Coverage/Sites.antt =====
-- `Sites` of src/parseval/generator/coverage.py: stable identities for term occurrences.
use par_seval.Common.{
  ℕ, zero, suc, ◌≡◌, refl, ◌∙◌, ap, true, ◌&&◌, Option, none, some, List, [], ◌∷◌, ◌++◌,
  if◌then◌else◌, ◌==◌, arith,
}
use par_seval.Common.Options.{◌>>=◌}

-- `_children` as pairs of a key (site, index) and a child, the newest first, and `_paths`.
pub record Sites : Type 0 where
  pub children : List ((ℕ × ℕ) × ℕ)
  pub paths : List (List ℕ)

abbrev pub no_sites : Sites
no_sites = record { children = []; paths = [] ∷ [] }

unfoldable pub known_child : ℕ → ℕ → List ((ℕ × ℕ) × ℕ) → Option ℕ
known_child site index [] = none
known_child site index (((s, i), c) ∷ cs) =
    if s == site && i == index then some c else known_child site index cs

unfoldable pub number : List (List ℕ) → ℕ
number [] = 0
number (p ∷ ps) = suc (number ps)

-- `path`; a site outside the list is an IndexError.
unfoldable pub path_of : ℕ → List (List ℕ) → Option (List ℕ)
path_of site [] = none
path_of zero (p ∷ ps) = some p
path_of (suc site) (p ∷ ps) = path_of site ps

-- The child that is known, or a new one, with the sites after it.
unfoldable pub child_from : Option ℕ → Sites → ℕ → ℕ → Option (ℕ × Sites)
unfolding number path_of
child_from (some c) s site index = some (c, s)
child_from none s site index = do
  path ← path_of site s.paths
  some (
    number s.paths,
    record {
      children = ((site, index), number s.paths) ∷ s.children;
      paths = s.paths ++ (path ++ index ∷ []) ∷ [];
    },
  )

-- `child`
unfoldable pub child : Sites → ℕ → ℕ → Option (ℕ × Sites)
unfolding known_child child_from
child s site index = child_from (known_child site index s.children) s site index

path_of-append : (ps : List (List ℕ)) (p : List ℕ) → path_of (number ps) (ps ++ p ∷ []) ≡ some p
unfolding path_of number
path_of-append [] p = refl
path_of-append (q ∷ ps) p = path_of-append ps p

child-from :
    (s : Sites) (site index : ℕ) (o : Option ℕ)
    → known_child site index s.children ≡ o
    → child s site index ≡ child_from o s site index
unfolding child
child-from s site index o e = ap (λ o. child_from o s site index) e

known_first :
    (site index c : ℕ) (cs : List ((ℕ × ℕ) × ℕ))
    → known_child site index (((site, index), c) ∷ cs) ≡ some c
unfolding known_child
known_first site index c cs = rw same refl
  where
    same : (site == site && index == index) ≡ true
    same = ground arith

-- The sites after a new child whose parent has a path.
abbrev extended : Sites → ℕ → ℕ → List ℕ → Sites
extended s site index path = record {
  children = ((site, index), number s.paths) ∷ s.children;
  paths = s.paths ++ (path ++ index ∷ []) ∷ [];
}

child_new :
    (s : Sites) (site index : ℕ) (path : List ℕ)
    → known_child site index s.children ≡ none
    → path_of site s.paths ≡ some path
    → child s site index ≡ some (number s.paths, extended s site index path)
child_new s site index path e h = child-from s site index none e ∙ unfold child_from in (rw h refl)

child_fails :
    (s : Sites) (site index : ℕ)
    → known_child site index s.children ≡ none
    → path_of site s.paths ≡ none
    → child s site index ≡ none
child_fails s site index e h = child-from s site index none e ∙ unfold child_from in (rw h refl)

child_known :
    (s : Sites) (site index c : ℕ)
    → known_child site index s.children ≡ some c
    → child s site index ≡ some (c, s)
child_known s site index c e = child-from s site index (some c) e ∙ unfold child_from in refl

-- Asking again for a child that was just asked for gives the same site and changes nothing; when the
-- first request fails, so does the whole.
pub child_again :
    (s : Sites) (site index : ℕ)
    → (child s site index >>= λ q. child q.1 site index) ≡ child s site index
child_again s site index = by_child (known_child site index s.children) refl
  where
    by_path :
        (o : Option (List ℕ))
        → known_child site index s.children ≡ none
        → path_of site s.paths ≡ o
        → (child s site index >>= λ q. child q.1 site index) ≡ child s site index
    by_path none e h = rw (child_fails s site index e h) refl
    by_path (some path) e h = rw (child_new s site index path e h) (
        child_known (extended s site index path) site index (number s.paths)
          (known_first site index (number s.paths) s.children))

    by_child :
        (o : Option ℕ)
        → known_child site index s.children ≡ o
        → (child s site index >>= λ q. child q.1 site index) ≡ child s site index
    by_child (some c) e = rw (child_known s site index c e) (child_known s site index c e)
    by_child none e = by_path (path_of site s.paths) e refl

-- When a site has a path and a child of it is not known yet, asking for the child succeeds, and the
-- path of the new site is that of its parent with the index at the end.
pub path_of-child :
    (s : Sites) (site index : ℕ) (path : List ℕ)
    → known_child site index s.children ≡ none
    → path_of site s.paths ≡ some path
    → (c : ℕ) × (after : Sites) × (child s site index ≡ some (c, after))
      × (path_of c after.paths ≡ some (path ++ index ∷ []))
path_of-child s site index path e h = (
  number s.paths,
  extended s site index path,
  child_new s site index path e h,
  path_of-append s.paths (path ++ index ∷ []),
)
