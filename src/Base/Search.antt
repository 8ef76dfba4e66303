-- ===== src/Base/Search.antt =====
-- What a search of `std::string` finds, and where the parts of a text lie round it.
use Prim.Native.Nat.{ℕ, zero, suc, ◌+◌, ◌≤◌}
use mathlib.Core.Bool.{true, false}
use mathlib.Core.List.{[], ◌∷◌, ◌++◌}
use mathlib.Core.Logic.{◌≢◌}
use mathlib.Core.Option
use mathlib.Core.Option.{Option, none, some}
use mathlib.Core.Path.{◌≡◌, refl, ap}
use native.Mathlib.Omega.{arith}
use devscan.Base.Lists.{length, take, drop}
use devscan.Base.Text.{Text, begins, find_first, find}

pub begins-eq : (s t : Text) → begins s t ≡ true → t ≡ s ++ drop (length s) t
begins-eq [] t h = refl
begins-eq (x ∷ xs) [] h = cc
begins-eq (x ∷ xs) (y ∷ ys) h = ground (arith, begins-eq xs ys)

pub begins-le : (s t : Text) → begins s t ≡ true → length s ≤ length t
begins-le [] t h = omega arith
begins-le (x ∷ xs) [] h = cc
begins-le (x ∷ xs) (y ∷ ys) h = ground (arith, begins-le xs ys)

pub begins-append : (s t : Text) → begins s (s ++ t) ≡ true
begins-append [] t = refl
begins-append (x ∷ xs) t = ground (arith, begins-append xs t)

find_first-at_zero : (s t : Text) → find_first s t ≡ some 0 → begins s t ≡ true
unfolding find_first
find_first-at_zero [] t h = refl
find_first-at_zero (x ∷ xs) [] h = cc
find_first-at_zero (x ∷ xs) (c ∷ t) h = ground arith

find_first-nil : (s : Text) (p : ℕ) → find_first s [] ≢ some (suc p)
unfolding find_first
find_first-nil [] p h = ground arith
find_first-nil (x ∷ xs) p h = cc

find_first-at_suc :
    (s : Text) (c : ℕ) (t : Text) (p : ℕ)
    → find_first s (c ∷ t) ≡ some (suc p)
    → find_first s t ≡ some p
unfolding find_first
find_first-at_suc s c t p h = ground arith

-- A text is the part before an occurrence, the occurrence, and the part behind it.
pub find_first-parts :
    (s t : Text) (p : ℕ) → find_first s t ≡ some p → t ≡ take p t ++ (s ++ drop (p + length s) t)
find_first-parts s t zero h =
    let e : zero + length s ≡ length s = omega arith in
    rw e (begins-eq s t (find_first-at_zero s t h))
find_first-parts s [] (suc p) h = absurd (find_first-nil s p h)
find_first-parts s (c ∷ t) (suc p) h =
    let e : suc p + length s ≡ suc (p + length s) = omega arith in
    rw e (ap (λ r. c ∷ r) (find_first-parts s t p (find_first-at_suc s c t p h)))

pub find_first-le : (s t : Text) (p : ℕ) → find_first s t ≡ some p → p + length s ≤ length t
find_first-le s t zero h = omega (arith, begins-le s t (find_first-at_zero s t h))
find_first-le s [] (suc p) h = absurd (find_first-nil s p h)
find_first-le s (c ∷ t) (suc p) h = omega (arith, find_first-le s t p (find_first-at_suc s c t p h))

-- An occurrence at the front is the first one.
pub find_first-append : (s t : Text) → s ≢ [] → find_first s (s ++ t) ≡ some 0
unfolding find_first
find_first-append [] t h = absurd (h refl)
find_first-append (x ∷ xs) t h = rw (begins-append (x ∷ xs) t)

-- `find` from a position searches what lies behind it.
pub find-drop :
    (text s : Text) (position : ℕ)
    → position ≤ length text
    → find text s position ≡ Option.map (λ p. p + position) (find_first s (drop position text))
unfolding find
find-drop text s position h = ground arith

begins-take : (s t : Text) (n : ℕ) → begins s (take n t) ≡ true → begins s t ≡ true
begins-take [] t n h = refl
begins-take (x ∷ xs) t zero h = cc
begins-take (x ∷ xs) [] (suc n) h = cc
begins-take (x ∷ xs) (y ∷ ys) (suc n) h = ground (arith, begins-take xs ys n)

find_first-here :
    (s : Text) (c : ℕ) (t : Text) (p : ℕ)
    → find_first s (c ∷ t) ≡ some (suc p)
    → begins s (c ∷ t) ≡ false
unfolding find_first
find_first-here s c t p h = ground arith

-- What lies before the first occurrence holds none.
pub find_first-take :
    (s t : Text) (p : ℕ) → s ≢ [] → find_first s t ≡ some p → find_first s (take p t) ≡ none
unfolding find_first
find_first-take [] t p ne h = absurd (ne refl)
find_first-take (x ∷ xs) t zero ne h = refl
find_first-take (x ∷ xs) [] (suc p) ne h = cc
find_first-take (x ∷ xs) (c ∷ t) (suc p) ne h = ground (
  arith,
  find_first-take (x ∷ xs) t p ne (find_first-at_suc (x ∷ xs) c t p h),
  find_first-here (x ∷ xs) c t p h,
  begins-take (x ∷ xs) (c ∷ t) (suc p),
)
