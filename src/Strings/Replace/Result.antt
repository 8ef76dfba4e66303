-- ===== src/Strings/Replace/Result.antt =====
-- What `replace` returns: with a substitute of the length of the search text, the tokens of `split`
-- joined by the substitute.
use mathlib.Core.Option
use devscan.Base.{
  ℕ, zero, suc, ◌+◌, ◌<◌, ◌≡◌, ◌≢◌, refl, ap, sym, ◌∙◌, Option, none, some, List, [], ◌∷◌, ◌++◌,
  append_assoc, append-nil, arith, length, take, drop, length-append, drop-append, take-past,
  drop-past, length-take, Option-cases, inl, inr,
}
use devscan.Base.Text.{Text, find_first, find}
use devscan.Base.Search.{find-drop, find_first-le}
use devscan.Strings.Split.{split}
use devscan.Strings.Split.Fields.{cut, split-cut}
use devscan.Strings.Split.Join.{join, behind-join, cut-ne-nil}
use devscan.Strings.Replace.{replace, replace_loop, splice}

pub find-behind :
    (before rest search : Text)
    → find (before ++ rest) search (length before)
      ≡ Option.map (λ p. p + length before) (find_first search rest)
find-behind before rest search =
    find-drop (before ++ rest) search (length before) (omega (arith, length-append before rest))
    ∙ ap (λ t. Option.map (λ p. p + length before) (find_first search t)) (drop-append before rest)

pub splice-behind :
    (before rest substitute : Text) (p n : ℕ)
    → splice (before ++ rest) (p + length before) n substitute
      ≡ (before ++ (take p rest ++ substitute)) ++ drop (p + n) rest
splice-behind before rest substitute p n =
    let e : p + length before + n ≡ p + n + length before = omega arith in
    rw (e, take-past before rest p, drop-past before rest (p + n)) (simp append_assoc)

length-before :
    (before rest search substitute : Text) (p : ℕ)
    → find_first search rest ≡ some p
    → length substitute ≡ length search
    → p + length before + length search ≡ length (before ++ (take p rest ++ substitute))
length-before before rest search substitute p found same = omega (
  arith,
  length-append before (take p rest ++ substitute),
  length-append (take p rest) substitute,
  find_first-le search rest p found,
  length-take p rest (omega (arith, find_first-le search rest p found)),
)

put-join :
    (before token substitute : Text) (o : Option (List Text))
    → ((ts : List Text) → o ≡ some ts → ts ≢ [])
    → Option.map (λ ts. (before ++ (token ++ substitute)) ++ join substitute ts) o
      ≡ Option.map (λ ts. before ++ join substitute ts) (Option.map (λ ts. token ∷ ts) o)
put-join before token substitute none h = refl
put-join before token substitute (some ts) h =
    rw (behind-join substitute ts (h ts refl)) (simp append_assoc)

replace_loop-cut :
    (fuel : ℕ) (before rest search substitute : Text)
    → length substitute ≡ length search
    → replace_loop fuel (before ++ rest) search substitute (length before)
      ≡ Option.map (λ ts. before ++ join substitute ts) (cut fuel search rest)
unfolding replace_loop cut
replace_loop-cut zero before rest search substitute same = refl
replace_loop-cut (suc fuel) before rest search substitute same =
    elim (Option-cases (find_first search rest)) [
      | inl e ↦
          rw (replace_loop, cut, find-behind before rest search, e)
            (ap some (ap (λ t. before ++ t) (sym (append-nil rest))))
      | inr (p, e) ↦
          rw
            (
              replace_loop,
              cut,
              find-behind before rest search,
              e,
              splice-behind before rest substitute p (length search),
              length-before before rest search substitute p e same,
            )
            (replace_loop-cut fuel (before ++ (take p rest ++ substitute))
                (drop (p + length search) rest) search substitute same
              ∙ put-join before (take p rest) substitute _
                  (cut-ne-nil fuel search (drop (p + length search) rest)))
    ]

-- With a search text that is not empty and a substitute as long as it, `replace` ends, and puts the
-- substitute where `split` cuts.
pub replace-split :
    (text search substitute : Text)
    → 0 < length search
    → length substitute ≡ length search
    → replace (suc (length text)) text search substitute
      ≡ Option.map (join substitute) (split text search)
unfolding replace
replace-split text search substitute h same =
    replace_loop-cut (suc (length text)) [] text search substitute same
    ∙ ap (Option.map (join substitute)) (sym (split-cut text search h))
