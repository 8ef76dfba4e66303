-- ===== src/Strings/Replace/Rounds.antt =====
-- What `replace` does with a substitute of another length, or with an empty search text.

use devscan.Base.{
  ℕ, zero, suc, ◌+◌, ◌≡◌, ◌≢◌, refl, ap, ◌∙◌, none, some, [], ◌∷◌, ◌++◌, append_assoc, arith,
  length, length-append, drop-append, drop-all,
}
use devscan.Base.Text.{Text, find_first}
use devscan.Base.Search.{find_first-append, find-drop}
use devscan.Strings.Replace.{replace, replace_loop, splice}
use devscan.Strings.Replace.Result.{find-behind, splice-behind}

find_first-empty : (t : Text) → find_first [] t ≡ some 0
unfolding find_first
find_first-empty [] = refl
find_first-empty (c ∷ t) = refl

replace_loop-empty :
    (fuel : ℕ) (text substitute : Text) → replace_loop fuel text [] substitute 0 ≡ none
unfolding replace_loop
replace_loop-empty zero text substitute = refl
replace_loop-empty (suc fuel) text substitute =
    rw (replace_loop, find-drop text [] 0 (omega arith), find_first-empty text)
      (replace_loop-empty fuel (splice text 0 0 substitute) substitute)

-- With an empty search text the loop never ends, whatever the fuel.
pub replace-empty : (fuel : ℕ) (text substitute : Text) → replace fuel text [] substitute ≡ none
unfolding replace
replace-empty fuel text substitute = replace_loop-empty fuel text substitute

find_first-byte_here : (c : ℕ) (t : Text) → find_first (c ∷ []) (c ∷ t) ≡ some 0
find_first-byte_here c t = find_first-append (c ∷ []) t (cc)

replace_loop-grows :
    (fuel x c : ℕ) (before t s : Text)
    → replace_loop fuel (before ++ (c ∷ t)) (c ∷ []) (x ∷ c ∷ s) (length before) ≡ none
unfolding replace_loop
replace_loop-grows zero x c before t s = refl
replace_loop-grows (suc fuel) x c before t s =
    let e : 0 + length before + 1 ≡ length (before ++ x ∷ []) =
      omega (arith, length-append before (x ∷ [])) in
    rw
      (
        replace_loop,
        find-behind before (c ∷ t) (c ∷ []),
        find_first-byte_here c t,
        splice-behind before (c ∷ t) (x ∷ c ∷ s) 0 1,
        e,
      )
      (ap (λ u. replace_loop fuel u (c ∷ []) (x ∷ c ∷ s) (length (before ++ x ∷ [])))
          (simp append_assoc)
        ∙ replace_loop-grows fuel x c (before ++ x ∷ []) (s ++ t) s)

find_first-behind :
    (c : ℕ) (before t : Text)
    → find_first (c ∷ []) before ≡ none
    → find_first (c ∷ []) (before ++ (c ∷ t)) ≡ some (length before)
unfolding find_first
find_first-behind c [] t h = ground arith
find_first-behind c (b ∷ before) t h = ground (arith, find_first-behind c before t)

-- The first round finds what a search from there finds.
first_round :
    (fuel x c : ℕ) (before t s : Text)
    → find_first (c ∷ []) before ≡ none
    → replace_loop fuel (before ++ (c ∷ t)) (c ∷ []) (x ∷ c ∷ s) 0
      ≡ replace_loop fuel (before ++ (c ∷ t)) (c ∷ []) (x ∷ c ∷ s) (length before)
unfolding replace_loop
first_round zero x c before t s h = refl
first_round (suc fuel) x c before t s h =
    let e : 0 + length before ≡ length before + 0 = omega arith in
    rw (
      replace_loop,
      find-behind before (c ∷ t) (c ∷ []),
      find_first-byte_here c t,
      find-drop (before ++ (c ∷ t)) (c ∷ []) 0 (omega arith),
      find_first-behind c before t h,
      e,
    )

-- Where the byte searched for is also the second byte of the substitute, it is found again in what
-- was just written: on a text that holds the byte the loop never ends, whatever the fuel.
pub replace-grows :
    (fuel x c : ℕ) (before t s : Text)
    → find_first (c ∷ []) before ≡ none
    → replace fuel (before ++ (c ∷ t)) (c ∷ []) (x ∷ c ∷ s) ≡ none
unfolding replace
replace-grows fuel x c before t s h =
    first_round fuel x c before t s h ∙ replace_loop-grows fuel x c before t s

find_first-in_nil : (s : Text) → s ≢ [] → find_first s [] ≡ none
unfolding find_first
find_first-in_nil [] h = absurd (h refl)
find_first-in_nil (c ∷ s) h = refl

spliced : (s : Text) → splice (s ++ s) 0 (length s) [] ≡ s
spliced s = let e : 0 + length s ≡ length s = omega arith in rw e (drop-append s s)

-- With the empty substitute the second of two adjoining occurrences is passed over.
replace-skips :
    (fuel : ℕ) (search : Text)
    → search ≢ []
    → replace (suc (suc fuel)) (search ++ search) search [] ≡ some search
unfolding replace replace_loop
replace-skips fuel search ne =
    let e : 0 + length search ≡ length search = omega arith in
    rw
      (
        replace_loop,
        find-drop (search ++ search) search 0 (omega arith),
        find_first-append search search ne,
        spliced search,
        e,
        find-drop search search (length search) (omega arith),
        drop-all (length search) search (omega arith),
        find_first-in_nil search ne,
      )
      (ap some (spliced search))
