-- ===== src/Strings/Replace.antt =====
-- hbm/string/replace.cpp: a character or a text replaced in a text. The loop of the second is on
-- fuel, and `none` means that it ran out.
pub mod Result
pub mod Rounds
use devscan.Base.{
  ℕ, zero, suc, ◌+◌, ◌==◌, Option, none, some, List, [], ◌∷◌, ◌++◌, map, length, take, drop,
  if◌then◌else◌,
}
use devscan.Base.Text.{Text, find}

-- `std::replace` over the bytes.
unfoldable pub replace_char : Text → ℕ → ℕ → Text
replace_char text search substitute = map (λ c. if c == search then substitute else c) text

-- `text.replace(position, count, substitute)`.
abbrev pub splice : Text → ℕ → ℕ → Text → Text
splice text position count substitute =
    take position text ++ (substitute ++ drop (position + count) text)

-- The search goes on behind as many bytes as `search` has, whatever the substitute's length.
replace_loop : ℕ → Text → Text → Text → ℕ → Option Text
replace_loop zero text search substitute position = none
replace_loop (suc fuel) text search substitute position = elim (find text search position) [
  | none ↦ some text
  | some found ↦
      replace_loop fuel (splice text found (length search) substitute) search substitute
        (found + length search)
]

unfoldable pub replace : ℕ → Text → Text → Text → Option Text
unfolding replace_loop
replace fuel text search substitute = replace_loop fuel text search substitute 0
