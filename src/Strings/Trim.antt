-- ===== src/Strings/Trim.antt =====
-- hbm/string/trim.cpp. The functions that change their argument return the text that it becomes.
pub mod Bare
pub mod Copy
use devscan.Base.{
  ℕ, suc, ◌+◌, ◌-◌, ◌==◌, Option, none, some, [], ◌∷◌, length, take, drop, if◌then◌else◌,
}
use devscan.Base.Text.{Text, substr}
use mathlib.Core.Option

unfoldable pub find_first_not_of : Text → ℕ → Option ℕ
find_first_not_of [] ch = none
find_first_not_of (c ∷ t) ch = if c == ch then Option.map suc (find_first_not_of t ch) else some 0

unfoldable pub find_last_not_of : Text → ℕ → Option ℕ
find_last_not_of [] ch = none
find_last_not_of (c ∷ t) ch = elim (find_last_not_of t ch) [
  | some p ↦ some (suc p)
  | none ↦ if c == ch then none else some 0
]

abbrev pub space : ℕ
space = b' '

-- `text.erase(0, start)`, where `npos` takes all.
erase_front : Text → Option ℕ → Text
erase_front text none = []
erase_front text (some start) = drop start text

unfoldable pub trim_left_if : Text → ℕ → Text
unfolding erase_front
trim_left_if text ch = erase_front text (find_first_not_of text ch)

unfoldable pub trim_right_if : Text → ℕ → Text
trim_right_if text ch = elim (find_last_not_of text ch) [
  | none ↦ text
  | some end ↦ take (end + 1) text
]

unfoldable pub trim_left : Text → Text
unfolding erase_front
trim_left text = erase_front text (find_first_not_of text space)

unfoldable pub trim_right : Text → Text
trim_right text = elim (find_last_not_of text space) [
  | none ↦ text
  | some end ↦ take (end + 1) text
]

unfoldable pub trim : Text → Text
trim text = trim_right (trim_left text)

-- `end - start + 1`. A text with a first byte that is kept has a last one.
kept_length : Text → ℕ → Option ℕ → ℕ
kept_length text start none = length text - start
kept_length text start (some end) = end - start + 1

unfoldable pub trim_copy : Text → Text
unfolding kept_length
trim_copy text = elim (find_first_not_of text space) [
  | none ↦ []
  | some start ↦ substr text start (kept_length text start (find_last_not_of text space))
]
