-- ===== src/Strings/Split/Join.antt =====
-- The tokens of `split` put together again, for a separator of any length.

use devscan.Base.{
  ℕ, zero, suc, ◌+◌, ◌<◌, ◌≡◌, ◌≢◌, refl, ap, sym, ◌∙◌, none, some, List, [], ◌∷◌, ◌++◌, append-nil,
  arith, length, take, drop, length-drop, Option-cases, inl, inr, All,
}
use devscan.Base.Text.{Text, find_first}
use devscan.Base.Search.{find_first-parts, find_first-take, find_first-le}
use devscan.Strings.Split.{split}
use devscan.Strings.Split.Fields.{cut, split-cut, fields, split-fields}

-- Every token behind a separator.
abbrev pub behind : Text → List Text → Text
behind separator [] = []
behind separator (t ∷ ts) = separator ++ (t ++ behind separator ts)

abbrev pub join : Text → List Text → Text
join separator [] = []
join separator (t ∷ ts) = t ++ behind separator ts

abbrev pub Lacks : Text → Text → Type 0
Lacks separator t = find_first separator t ≡ none

-- A non-empty list of tokens that spells the text and holds no separator.
abbrev Spells : Text → Text → List Text → Type 0
Spells separator text ts = (ts ≢ []) × (join separator ts ≡ text) × All (Lacks separator) ts

pub behind-join :
    (separator : Text) (ts : List Text)
    → ts ≢ []
    → behind separator ts ≡ separator ++ join separator ts
behind-join separator [] h = absurd (h refl)
behind-join separator (t ∷ ts) h = refl

ne-nil : (s : Text) → 0 < length s → s ≢ []
ne-nil [] h = elim h [ ]
ne-nil (c ∷ s) h = cc

cut-Spells :
    (fuel : ℕ) (separator rest : Text)
    → 0 < length separator
    → length rest < fuel
    → (ts : List Text) × (cut fuel separator rest ≡ some ts) × Spells separator rest ts
unfolding cut
cut-Spells zero separator rest hs h = elim h [ ]
cut-Spells (suc fuel) separator rest hs h = elim (Option-cases (find_first separator rest)) [
  | inl e ↦ (rest ∷ [], rw (cut, e), (cc, append-nil rest, (e, tt)))
  | inr (p, e) ↦
      let ih = cut-Spells fuel separator (drop (p + length separator) rest) hs (
        omega (arith, length-drop (p + length separator) rest, find_first-le separator rest p e)) in
      (
        take p rest ∷ ih.0,
        rw (cut, e, ih.1),
        (
          cc,
          rw (behind-join separator ih.0 ih.2.0, ih.2.1)
              (sym (find_first-parts separator rest p e)),
          (find_first-take separator rest p (ne-nil separator hs) e, ih.2.2),
        ),
      )
]

-- `split` returns, the tokens joined by the separator are the text, and no token holds the
-- separator, for every separator that is not empty.
pub split-join :
    (text separator : Text)
    → 0 < length separator
    → (ts : List Text) × (split text separator ≡ some ts)
      × (ts ≢ [])
      × (join separator ts ≡ text)
      × All (Lacks separator) ts
split-join text separator h =
    let found = cut-Spells (suc (length text)) separator text h (omega arith) in
    (found.0, split-cut text separator h ∙ found.1, found.2.0, found.2.1, found.2.2)

-- With the empty separator the text is the one token.
pub split-empty : (text : Text) → split text [] ≡ some (text ∷ [])
unfolding split
split-empty text = refl

fields-append :
    (separator : ℕ) (t rest : Text)
    → Lacks (separator ∷ []) t
    → fields separator (t ++ (separator ∷ rest)) ≡ t ∷ fields separator rest
unfolding fields find_first
fields-append separator [] rest h = ground arith
fields-append separator (c ∷ t) rest h = ground (arith, fields-append separator t rest)

fields-Lacks : (separator : ℕ) (t : Text) → Lacks (separator ∷ []) t → fields separator t ≡ t ∷ []
unfolding fields find_first
fields-Lacks separator [] h = refl
fields-Lacks separator (c ∷ t) h = ground (arith, fields-Lacks separator t)

fields-join :
    (separator : ℕ) (t : Text) (ts : List Text)
    → All (Lacks (separator ∷ [])) (t ∷ ts)
    → fields separator (join (separator ∷ []) (t ∷ ts)) ≡ t ∷ ts
fields-join separator t [] h = rw append-nil (fields-Lacks separator t h.0)
fields-join separator t (u ∷ us) h =
    fields-append separator t (join (separator ∷ []) (u ∷ us)) h.0
    ∙ ap (λ r. t ∷ r) (fields-join separator u us h.1)

-- Splitting joined tokens at a separator of one byte gives the tokens back, if there is a token and
-- none holds the separator.
pub split-join_byte :
    (separator : ℕ) (ts : List Text)
    → ts ≢ []
    → All (Lacks (separator ∷ [])) ts
    → split (join (separator ∷ []) ts) (separator ∷ []) ≡ some ts
split-join_byte separator [] ne h = absurd (ne refl)
split-join_byte separator (t ∷ ts) ne h =
    split-fields (join (separator ∷ []) (t ∷ ts)) separator ∙ ap some (fields-join separator t ts h)

pub cut-ne-nil :
    (fuel : ℕ) (separator rest : Text) (ts : List Text)
    → cut fuel separator rest ≡ some ts
    → ts ≢ []
unfolding cut
cut-ne-nil zero separator rest ts h = cc
cut-ne-nil (suc fuel) separator rest ts h = ground arith
