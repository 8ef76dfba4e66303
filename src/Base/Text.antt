-- ===== src/Base/Text.antt =====
-- `std::string` as a list of its bytes: the searches and cuts that the source calls, with `none` for
-- `npos`, and their laws.
use Prim.Native.Char.{code}
use Prim.Native.Nat.{ℕ, suc, ◌+◌, ◌-◌, min}
use Prim.Native.String.{String}
use mathlib.Core.Bool.{Bool, true, false, ◌&&◌}
use mathlib.Core.List.{List, [], ◌∷◌}
use mathlib.Core.Logic.{◌↔◌}
use mathlib.Core.Option
use mathlib.Core.Option.{Option, none, some}
use mathlib.Core.Path.{◌≡◌, refl}
use native.Mathlib.Omega.{arith}
use devscan.Base.Tests.{ltb, ◌==◌, if◌then◌else◌}
use devscan.Base.Lists.{length, take, drop}

abbrev pub Text : Type 0
Text = List ℕ

-- The bytes of an ASCII literal. `String` has its own `[]` and `∷`.
abbrev pub codes : String → Text
codes String.[] = []
codes (String.◌∷◌ c s) = code c ∷ codes s

-- `operator==`.
abbrev pub text_eq : Text → Text → Bool
text_eq [] [] = true
text_eq [] (y ∷ ys) = false
text_eq (x ∷ xs) [] = false
text_eq (x ∷ xs) (y ∷ ys) = (x == y) && text_eq xs ys

abbrev pub is_empty : Text → Bool
is_empty [] = true
is_empty (x ∷ xs) = false

abbrev pub begins : Text → Text → Bool
begins [] t = true
begins (x ∷ xs) [] = false
begins (x ∷ xs) (y ∷ ys) = (x == y) && begins xs ys

-- The first position at which `s` occurs.
unfoldable pub find_first : Text → Text → Option ℕ
find_first s [] = if is_empty s then some 0 else none
find_first s (c ∷ t) = if begins s (c ∷ t) then some 0 else Option.map suc (find_first s t)

-- `text.find(s, position)`.
unfoldable pub find : Text → Text → ℕ → Option ℕ
unfolding find_first
find text s position =
    if ltb (length text) position
    then none
    else Option.map (λ p. p + position) (find_first s (drop position text))

-- `text.substr(position, count)` at a position in the text.
unfoldable pub substr : Text → ℕ → ℕ → Text
substr text position count = take (min count (length text - position)) (drop position text)

pub text_eq_iff : (s t : Text) → (text_eq s t ≡ true) ↔ (s ≡ t)
text_eq_iff [] [] = (λ _. refl, λ _. refl)
text_eq_iff [] (y ∷ ys) = (λ h. cc, λ h. cc)
text_eq_iff (x ∷ xs) [] = (λ h. cc, λ h. cc)
text_eq_iff (x ∷ xs) (y ∷ ys) = ground (arith, text_eq_iff xs ys)

pub text_eq_refl : (s : Text) → text_eq s s ≡ true
text_eq_refl s = (text_eq_iff s s).1 refl
