-- ===== src/Loop/Infos.antt =====
-- The map of handlers of an event loop, and what a list of changes makes of it.
use devscan.Base.{
  ℕ, ◌≡◌, refl, Option, none, some, List, [], ◌∷◌, ◌++◌, length, if◌then◌else◌, ◌==◌, arith,
}
use devscan.Loop.System.{Change, Infos}
use devscan.Loop.EventLoop.{find_info, erase_info, behind, get_elem?}

module _ {H : Type 0} where
  -- The handler of a descriptor.
  abbrev pub handler_of : ℕ → Infos H → Option H
  handler_of fd infos = elim (find_info fd infos) [ none ↦ none | some found ↦ some found.1 ]

  -- The last word of a list of changes about a descriptor.
  unfoldable pub after_changes : ℕ → List (Change H) → Option H → Option H
  after_changes fd [] o = o
  after_changes fd ((k, wanted) ∷ rest) o = after_changes fd rest (if k == fd then wanted else o)

  -- The map after one change.
  unfoldable pub changed : Change H → ℕ → Infos H → Infos H
  changed (k, none) node infos = erase_info k infos
  changed (k, some h) node infos = (k, node, h) ∷ erase_info k infos

  find_info-erase_info :
      (fd k : ℕ) (infos : Infos H)
      → find_info fd (erase_info k infos) ≡ (if k == fd then none else find_info fd infos)
  unfolding find_info erase_info
  find_info-erase_info fd k [] = ground arith
  find_info-erase_info fd k ((j, node, h) ∷ infos) = ground (arith, find_info-erase_info fd k infos)

  -- A change decides about its descriptor and leaves the others as they are.
  pub handler_of-changed :
      (fd : ℕ) (c : Change H) (node : ℕ) (infos : Infos H)
      → handler_of fd (changed c node infos) ≡ (if c.0 == fd then c.1 else handler_of fd infos)
  unfolding changed find_info
  handler_of-changed fd (k, none) node infos = ground (arith, find_info-erase_info fd k infos)
  handler_of-changed fd (k, some h) node infos = ground (arith, find_info-erase_info fd k infos)

  pub behind-cons :
      (fd k node n : ℕ) (h : H) (infos : Infos H)
      → behind k node ((fd, n, h) ∷ infos)
        ≡ (if fd == k then (if n == node then some h else none) else behind k node infos)
  unfolding behind
  behind-cons fd k node n h infos = ground arith

  pub behind-erase_info :
      (fd k node : ℕ) (infos : Infos H)
      → behind fd node (erase_info k infos) ≡ (if k == fd then none else behind fd node infos)
  unfolding behind
  behind-erase_info fd k node infos = ground (arith, find_info-erase_info fd k infos)

module _ {ℓ} {A : Type ℓ} where
  pub get_elem?-append :
      (xs : List A) (a : A) (ys : List A) → get_elem? (xs ++ a ∷ ys) (length xs) ≡ some a
  unfolding get_elem?
  get_elem?-append [] a ys = refl
  get_elem?-append (x ∷ xs) a ys = get_elem?-append xs a ys

  pub get_elem?-length : (xs : List A) → get_elem? xs (length xs) ≡ none
  unfolding get_elem?
  get_elem?-length [] = refl
  get_elem?-length (x ∷ xs) = get_elem?-length xs
