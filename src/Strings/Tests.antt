-- ===== src/Strings/Tests.antt =====
-- Runs of the string functions on small inputs, after hbm/string/test.
use devscan.Base.{◌≡◌, ◌≢◌, refl, none, some, List, [], ◌∷◌, arith, All}
use mathlib.Core.Option
use devscan.Base.Text.{Text, codes, find_first}
use devscan.Strings.Split.{split}
use devscan.Strings.Split.Join.{join, Lacks, split-join, split-join_byte}
use devscan.Strings.Replace.{replace}
use devscan.Strings.Replace.Result.{replace-split}
use devscan.Strings.Replace.Rounds.{replace-grows}

abbrev words : List Text
words = codes "eth0" ∷ codes "" ∷ codes "eth1" ∷ []

words-Lacks : All (Lacks (codes ":")) words
unfolding find_first
words-Lacks = (refl, (refl, (refl, tt)))

split-join_example :
    (ts : List Text) × (split (codes "a##b#") (codes "##") ≡ some ts)
    × (ts ≢ [])
    × (join (codes "##") ts ≡ codes "a##b#")
    × All (Lacks (codes "##")) ts
split-join_example = split-join (codes "a##b#") (codes "##") (omega arith)

replace-split_example :
    replace 11 (codes "eth0:eth1:") (codes ":") (codes "-")
    ≡ Option.map (join (codes "-")) (split (codes "eth0:eth1:") (codes ":"))
replace-split_example =
    replace-split (codes "eth0:eth1:") (codes ":") (codes "-") (omega arith) refl

eth0-Lacks : find_first (codes ":") (codes "eth0") ≡ none
unfolding find_first
eth0-Lacks = refl

replace-grows_example : replace 100 (codes "eth0:1") (codes ":") (codes "\\:x") ≡ none
replace-grows_example =
    replace-grows 100 b'\\' b':' (codes "eth0") (codes "1") (codes "x") eth0-Lacks

behind-Lacks : All (Lacks (codes ":")) (codes "a" ∷ [] ∷ [])
unfolding find_first
behind-Lacks = (refl, (refl, tt))

-- A text that ends with the separator has an empty last token.
split-behind : split (codes "a:") (codes ":") ≡ some (codes "a" ∷ [] ∷ [])
split-behind = split-join_byte b':' (codes "a" ∷ [] ∷ []) (cc) behind-Lacks
