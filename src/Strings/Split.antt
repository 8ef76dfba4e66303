-- ===== src/Strings/Split.antt =====
-- hbm/string/split.cpp. The loop is on fuel: `none` means that it ran out. Each round but the last
-- moves the start behind an occurrence of a separator that is not empty, so the length of the text
-- and one more are enough. The laws are in the modules below.
pub mod Fields
pub mod Join
use devscan.Base.{
  ℕ, zero, suc, ◌+◌, ◌-◌, ◌==◌, Option, none, some, List, [], ◌∷◌, ◌++◌, length, if◌then◌else◌,
}
use devscan.Base.Text.{Text, find, substr}

-- `pos_end - pos_start`. With `npos` the count lies past the end, and `substr` cuts it there.
token_length : Text → ℕ → Option ℕ → ℕ
token_length text pos_start none = length text - pos_start
token_length text pos_start (some pos_end) = pos_end - pos_start

-- `while(1)`
split_loop : ℕ → Text → Text → ℕ → List Text → Option (List Text)
unfolding token_length
split_loop zero text separator pos_start tokens = none
split_loop (suc fuel) text separator pos_start tokens =
    let found = find text separator pos_start in
    let token = substr text pos_start (token_length text pos_start found) in
    let pushed = tokens ++ token ∷ [] in
    elim found [
      | none ↦ some pushed
      | some pos_end ↦ split_loop fuel text separator (pos_end + length separator) pushed
    ]

unfoldable pub split : Text → Text → Option (List Text)
unfolding split_loop
split text separator =
    if length separator == 0
    then some (text ∷ [])
    else split_loop (suc (length text)) text separator 0 []
