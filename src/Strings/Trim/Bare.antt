-- ===== src/Strings/Trim/Bare.antt =====
-- What the trimming functions take off, and what they leave.

use devscan.Base.{
  ℕ, zero, suc, ◌+◌, ◌≡◌, ◌≢◌, refl, ap, sym, ◌∙◌, ◌==◌, Bool, false, none, some, [], ◌∷◌, ◌++◌,
  arith, length, take, replicate, Option-cases, Bool-cases, inl, inr, ◌⊎◌, if◌then◌else◌,
}
use devscan.Base.Text.{Text}
use devscan.Strings.Trim.{
  find_first_not_of, find_last_not_of, space, trim_left_if, trim_right_if, trim_left, trim_right,
  trim,
}

abbrev pub first_is : ℕ → Text → Bool
first_is ch [] = false
first_is ch (c ∷ t) = c == ch

abbrev pub last_is : ℕ → Text → Bool
last_is ch [] = false
last_is ch (c ∷ []) = c == ch
last_is ch (c ∷ d ∷ t) = last_is ch (d ∷ t)

-- `bare` is the text without the bytes `ch` before and behind it.
pub record IsTrimmed (ch : ℕ) (text bare : Text) : Type 0 where
  pub before : ℕ
  pub after : ℕ
  pub spelled : text ≡ replicate before ch ++ (bare ++ replicate after ch)
  pub first : first_is ch bare ≡ false
  pub last : last_is ch bare ≡ false

abbrev pub IsLeftTrimmed : ℕ → Text → Text → Type 0
IsLeftTrimmed ch text bare = (n : ℕ) × (text ≡ replicate n ch ++ bare) × (first_is ch bare ≡ false)

trim_left_if-cons :
    (c : ℕ) (t : Text) (ch : ℕ)
    → trim_left_if (c ∷ t) ch ≡ (if c == ch then trim_left_if t ch else c ∷ t)
unfolding trim_left_if find_first_not_of
trim_left_if-cons c t ch = ground arith

trim_left_if-IsLeftTrimmed : (text : Text) (ch : ℕ) → IsLeftTrimmed ch text (trim_left_if text ch)
trim_left_if-IsLeftTrimmed [] ch = unfold trim_left_if find_first_not_of in (0, refl, refl)
trim_left_if-IsLeftTrimmed (c ∷ t) ch = elim (Bool-cases (c == ch)) [
  | inl e ↦
      let ih = trim_left_if-IsLeftTrimmed t ch in
      rw (trim_left_if-cons, e) (suc ih.0, ground (arith, ih.1), ih.2)
  | inr e ↦ rw (trim_left_if-cons, e) (0, refl, e)
]

all_trimmed :
    (text : Text) (ch : ℕ) → find_last_not_of text ch ≡ none → text ≡ replicate (length text) ch
unfolding find_last_not_of
all_trimmed [] ch h = refl
all_trimmed (c ∷ t) ch h = ground (arith, all_trimmed t ch)

abbrev IsRightTrimmed : ℕ → Text → Text → Type 0
IsRightTrimmed ch text bare =
    (n : ℕ) × (text ≡ bare ++ replicate n ch) × (last_is ch bare ≡ false) × (bare ≢ [])

cons-IsRightTrimmed :
    (ch c : ℕ) (t bare : Text) → IsRightTrimmed ch t bare → IsRightTrimmed ch (c ∷ t) (c ∷ bare)
cons-IsRightTrimmed ch c t [] h = absurd (h.3 refl)
cons-IsRightTrimmed ch c t (b ∷ bare) h = (h.0, ap (λ u. c ∷ u) h.1, h.2, cc)

take-IsRightTrimmed :
    (text : Text) (ch end : ℕ)
    → find_last_not_of text ch ≡ some end
    → IsRightTrimmed ch text (take (suc end) text)
unfolding find_last_not_of
take-IsRightTrimmed [] ch end h = cc
take-IsRightTrimmed (c ∷ t) ch end h = elim (Option-cases (find_last_not_of t ch)) [
  | inl e ↦
      let z : end ≡ 0 = ground arith in
      let kept : (c == ch) ≡ false = ground arith in
      rw z (length t, ap (λ u. c ∷ u) (all_trimmed t ch e), kept, cc)
  | inr (p, e) ↦
      let q : end ≡ suc p = ground arith in
      rw q (cons-IsRightTrimmed ch c t (take (suc p) t) (take-IsRightTrimmed t ch p e))
]

-- Without a byte but `ch` the text stays as it is, and so does a text of those bytes alone.
trim_right_if-cases :
    (text : Text) (ch : ℕ)
    → ((text ≡ replicate (length text) ch) × (trim_right_if text ch ≡ text))
      ⊎ IsRightTrimmed ch text (trim_right_if text ch)
unfolding trim_right_if
trim_right_if-cases text ch = elim (Option-cases (find_last_not_of text ch)) [
  | inl e ↦ inl (all_trimmed text ch e, rw (trim_right_if, e))
  | inr (p, e) ↦
      let q : p + 1 ≡ suc p = omega arith in
      inr (rw (trim_right_if, e, q) (take-IsRightTrimmed text ch p e))
]

first_is-append :
    (ch : ℕ) (bare rest : Text) → bare ≢ [] → first_is ch (bare ++ rest) ≡ first_is ch bare
first_is-append ch [] rest h = absurd (h refl)
first_is-append ch (b ∷ bare) rest h = refl

nil_of_first : (ch n : ℕ) → first_is ch (replicate n ch) ≡ false → replicate n ch ≡ []
nil_of_first ch zero h = refl
nil_of_first ch (suc n) h = ground (arith, h)

blank_left :
    (text u : Text) (ch : ℕ)
    → IsLeftTrimmed ch text u
    → u ≡ replicate (length u) ch
    → IsTrimmed ch text u
blank_left text u ch left blank =
    let none_left : u ≡ [] =
      blank ∙ nil_of_first ch (length u) (ap (first_is ch) (sym blank) ∙ left.2) in
    rw none_left (record {
      before = left.0;
      after = 0;
      spelled = left.1 ∙ ap (λ t. replicate left.0 ch ++ t) none_left;
      first = refl;
      last = refl;
    })

trim_both : (text : Text) (ch : ℕ) → IsTrimmed ch text (trim_right_if (trim_left_if text ch) ch)
trim_both text ch =
    let left = trim_left_if-IsLeftTrimmed text ch in
    let u = trim_left_if text ch in
    elim (trim_right_if-cases (trim_left_if text ch) ch) [
      | inl (blank, kept) ↦ rw kept (blank_left text u ch left blank)
      | inr right ↦ record {
        before = left.0;
        after = right.0;
        spelled = left.1 ∙ ap (λ t. replicate left.0 ch ++ t) right.1;
        first =
            sym (first_is-append ch (trim_right_if u ch) (replicate right.0 ch) right.3)
            ∙ ap (first_is ch) (sym right.1)
            ∙ left.2;
        last = right.2;
      }
    ]

-- `trim` takes the spaces before and behind the text off, and nothing else.
trim-IsTrimmed : (text : Text) → IsTrimmed space text (trim text)
unfolding trim trim_left trim_right trim_left_if trim_right_if
trim-IsTrimmed text = trim_both text space
