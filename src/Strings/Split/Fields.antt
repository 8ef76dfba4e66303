-- ===== src/Strings/Split/Fields.antt =====
-- What `split` computes: the loop over positions is a recursion on the text that is left, and with a
-- separator of one byte it is the plain list of fields.
use mathlib.Core.Option
use Prim.Native.Nat.{min}
use devscan.Base.{
  ℕ, zero, suc, ◌+◌, ◌-◌, ◌≤◌, ◌<◌, ◌≡◌, refl, ap, ◌∙◌, ◌==◌, Option, none, some, List, [], ◌∷◌,
  ◌++◌, append_assoc, arith, length, take, drop, length-drop, drop-drop, take-all, if◌then◌else◌,
  Bool-cases, Option-cases, inl, inr, false,
}
use devscan.Base.Text.{Text, find_first, substr}
use devscan.Base.Search.{find-drop, find_first-le}
use devscan.Strings.Split.{token_length, split_loop, split}

-- The loop, on what is left of the text.
unfoldable pub cut : ℕ → Text → Text → Option (List Text)
cut zero separator rest = none
cut (suc fuel) separator rest = elim (find_first separator rest) [
  | none ↦ some (rest ∷ [])
  | some p ↦
      Option.map (λ ts. take p rest ∷ ts) (cut fuel separator (drop (p + length separator) rest))
]

last_token :
    (text : Text) (pos_start : ℕ)
    → substr text pos_start (token_length text pos_start none) ≡ drop pos_start text
unfolding substr token_length
last_token text pos_start =
    let e : min (length text - pos_start) (length text - pos_start) ≡ length (drop pos_start text) =
      omega (arith, length-drop pos_start text) in
    rw e (take-all _ (drop pos_start text) (omega arith))

next_token :
    (text : Text) (pos_start p : ℕ)
    → p ≤ length (drop pos_start text)
    → substr text pos_start (token_length text pos_start (some (p + pos_start)))
      ≡ take p (drop pos_start text)
unfolding substr token_length
next_token text pos_start p h =
    let e : min (p + pos_start - pos_start) (length text - pos_start) ≡ p =
      omega (arith, length-drop pos_start text) in
    rw e

map-push :
    (tokens : List Text) (token : Text) (o : Option (List Text))
    → Option.map (λ ts. (tokens ++ token ∷ []) ++ ts) o
      ≡ Option.map (λ ts. tokens ++ ts) (Option.map (λ ts. token ∷ ts) o)
map-push tokens token none = refl
map-push tokens token (some ts) = ap some (append_assoc tokens (token ∷ []) ts)

drop_behind :
    (text : Text) (pos_start p n : ℕ)
    → drop (p + n) (drop pos_start text) ≡ drop (p + pos_start + n) text
drop_behind text pos_start p n =
    let e : pos_start + (p + n) ≡ p + pos_start + n = omega arith in
    drop-drop pos_start (p + n) text ∙ ap (λ k. drop k text) e

-- A round of the loop, once the search is done.
after_search : ℕ → Text → Text → ℕ → List Text → Option ℕ → Option (List Text)
after_search fuel text separator pos_start tokens found =
    let token = substr text pos_start (token_length text pos_start found) in
    let pushed = tokens ++ token ∷ [] in
    elim found [
      | none ↦ some pushed
      | some pos_end ↦ split_loop fuel text separator (pos_end + length separator) pushed
    ]

split_loop-after_search :
    (fuel : ℕ) (text separator : Text) (pos_start : ℕ) (tokens : List Text) (found : Option ℕ)
    → pos_start ≤ length text
    → find_first separator (drop pos_start text) ≡ found
    → split_loop (suc fuel) text separator pos_start tokens
      ≡ after_search fuel text separator pos_start tokens (Option.map (λ p. p + pos_start) found)
unfolding split_loop after_search
split_loop-after_search fuel text separator pos_start tokens found h e =
    ap (after_search fuel text separator pos_start tokens)
      (find-drop text separator pos_start h ∙ ap (Option.map (λ p. p + pos_start)) e)

split_loop-cut :
    (fuel : ℕ) (text separator : Text) (pos_start : ℕ) (tokens : List Text)
    → pos_start ≤ length text
    → split_loop fuel text separator pos_start tokens
      ≡ Option.map (λ ts. tokens ++ ts) (cut fuel separator (drop pos_start text))
unfolding split_loop cut after_search
split_loop-cut zero text separator pos_start tokens h = refl
split_loop-cut (suc fuel) text separator pos_start tokens h =
    elim (Option-cases (find_first separator (drop pos_start text))) [
      | inl e ↦
          split_loop-after_search fuel text separator pos_start tokens none h e
          ∙ rw (cut, e) (ap (λ t. some (tokens ++ t ∷ [])) (last_token text pos_start))
      | inr (p, e) ↦
          let fits = find_first-le separator (drop pos_start text) p e in
          split_loop-after_search fuel text separator pos_start tokens (some p) h e
          ∙ rw
              (
                cut,
                e,
                next_token text pos_start p (omega (arith, fits)),
                drop_behind text pos_start p (length separator),
              )
              (split_loop-cut fuel text separator (p + pos_start + length separator)
                  (tokens ++ take p (drop pos_start text) ∷ [])
                  (omega (arith, fits, length-drop pos_start text))
                ∙ map-push tokens (take p (drop pos_start text)) _)
    ]

pub split-cut :
    (text separator : Text)
    → 0 < length separator
    → split text separator ≡ cut (suc (length text)) separator text
unfolding split
split-cut text separator h =
    let e : (length separator == 0) ≡ false = ground arith in
    rw e (
      split_loop-cut (suc (length text)) text separator 0 [] (omega arith)
      ∙ map-id (cut (suc (length text)) separator text))
  where
    map-id : (o : Option (List Text)) → Option.map (λ ts. [] ++ ts) o ≡ o
    map-id none = refl
    map-id (some ts) = refl

-- The fields between single separators.
abbrev pub onto_first : ℕ → List Text → List Text
onto_first c [] = []
onto_first c (t ∷ ts) = (c ∷ t) ∷ ts

unfoldable pub fields : ℕ → Text → List Text
fields separator [] = [] ∷ []
fields separator (c ∷ t) =
    let rest = fields separator t in if separator == c then [] ∷ rest else onto_first c rest

find_first-byte :
    (separator c : ℕ) (t : Text)
    → find_first (separator ∷ []) (c ∷ t)
      ≡ (if separator == c then some 0 else Option.map suc (find_first (separator ∷ []) t))
unfolding find_first
find_first-byte separator c t = ground arith

onto_first-take :
    (c p : ℕ) (t : Text) (o : Option (List Text))
    → Option.map (λ ts. (c ∷ take p t) ∷ ts) o
      ≡ Option.map (onto_first c) (Option.map (λ ts. take p t ∷ ts) o)
onto_first-take c p t none = refl
onto_first-take c p t (some ts) = refl

cut-byte :
    (fuel separator c : ℕ) (t : Text)
    → cut (suc fuel) (separator ∷ []) (c ∷ t) ≡ (
        if separator == c
        then Option.map (λ ts. [] ∷ ts) (cut fuel (separator ∷ []) t)
        else Option.map (onto_first c) (cut (suc fuel) (separator ∷ []) t))
unfolding cut
cut-byte fuel separator c t = elim (Bool-cases (separator == c)) [
  | inl e ↦ rw (cut, find_first-byte, e)
  | inr e ↦ elim (Option-cases (find_first (separator ∷ []) t)) [
    | inl none_left ↦ rw (cut, find_first-byte, e, none_left)
    | inr (p, found) ↦
        let n : suc p + 1 ≡ suc (p + 1) = omega arith in
        rw (cut, find_first-byte, e, found, n) (onto_first-take c p t _)
  ]
]

cut-fields :
    (fuel separator : ℕ) (rest : Text)
    → length rest < fuel
    → cut fuel (separator ∷ []) rest ≡ some (fields separator rest)
unfolding fields
cut-fields zero separator rest h = elim h [ ]
cut-fields (suc fuel) separator [] h = unfold cut find_first in refl
cut-fields (suc fuel) separator (c ∷ t) h =
    rw
      (
        cut-byte,
        cut-fields fuel separator t (omega arith),
        cut-fields (suc fuel) separator t (omega arith),
      )
      (ground arith)

-- With a separator of one byte the tokens are the fields between the separators.
pub split-fields :
    (text : Text) (separator : ℕ) → split text (separator ∷ []) ≡ some (fields separator text)
split-fields text separator =
    split-cut text (separator ∷ []) (omega arith)
    ∙ cut-fields (suc (length text)) separator text (omega arith)
