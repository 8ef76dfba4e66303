-- ===== src/Strings/Trim/Copy.antt =====
-- `trim_copy` against `trim`, and texts of spaces alone.

use Prim.Native.Nat.{min}
use devscan.Base.{
  ℕ, zero, suc, ◌+◌, ◌-◌, ◌≤◌, ◌<◌, ◌≡◌, refl, sym, ◌∙◌, ◌==◌, false, none, some, [], ◌∷◌, arith,
  length, drop, replicate, Option-cases, inl, inr,
}
use devscan.Base.Text.{Text, substr}
use devscan.Strings.Trim.{
  find_first_not_of, find_last_not_of, space, trim_left, trim_right, trim, trim_copy, kept_length,
}

last-lt : (text : Text) (ch end : ℕ) → find_last_not_of text ch ≡ some end → end < length text
unfolding find_last_not_of
last-lt [] ch end h = cc
last-lt (c ∷ t) ch zero h = omega arith
last-lt (c ∷ t) ch (suc end) h = ground (arith, last-lt t ch end)

last-cons :
    (c : ℕ) (t : Text) (ch : ℕ)
    → (c == ch) ≡ false
    → (end : ℕ) × (find_last_not_of (c ∷ t) ch ≡ some end)
unfolding find_last_not_of
last-cons c t ch h = elim (Option-cases (find_last_not_of t ch)) [
  | inl e ↦ (0, rw (find_last_not_of, e, h))
  | inr (p, e) ↦ (suc p, rw (find_last_not_of, e))
]

-- Where the first kept byte is, the last kept one is behind it.
record Behind (text : Text) (ch start : ℕ) : Type 0 where
  end : ℕ
  found : find_last_not_of text ch ≡ some end
  ordered : start ≤ end
  within : end < length text
  behind : find_last_not_of (drop start text) ch ≡ some (end - start)

last_of_first :
    (text : Text) (ch start : ℕ) → find_first_not_of text ch ≡ some start → Behind text ch start
unfolding find_first_not_of find_last_not_of
last_of_first [] ch start h = cc
last_of_first (c ∷ t) ch zero h =
    let last = last-cons c t ch (ground arith) in
    record {
      end = last.0;
      found = last.1;
      ordered = omega arith;
      within = last-lt (c ∷ t) ch last.0 last.1;
      behind = let e : last.0 - 0 ≡ last.0 = omega arith in rw e last.1;
    }
last_of_first (c ∷ t) ch (suc start) h =
    let ih = last_of_first t ch start (ground arith) in
    record {
      end = suc ih.end;
      found = rw (find_last_not_of, ih.found);
      ordered = omega (arith, ih.ordered);
      within = omega (arith, ih.within);
      behind = let e : suc ih.end - suc start ≡ ih.end - start = omega arith in rw e ih.behind;
    }

kept_part :
    (text : Text) (start : ℕ) (l : Behind text space start)
    → trim_right (drop start text)
      ≡ substr text start (kept_length text start (find_last_not_of text space))
unfolding trim_right substr kept_length
kept_part text start l =
    let e : min (l.end - start + 1) (length text - start) ≡ l.end - start + 1 =
      omega (arith, l.within, l.ordered) in
    rw (trim_right, l.behind, l.found, e)

-- `trim_copy` returns what `trim` leaves.
trim_copy-trim : (text : Text) → trim_copy text ≡ trim text
unfolding trim trim_left trim_copy
trim_copy-trim text = elim (Option-cases (find_first_not_of text space)) [
  | inl e ↦ rw (trim_copy, e) (unfold trim_right find_last_not_of in refl)
  | inr (start, e) ↦
      rw (trim_copy, e) (sym (kept_part text start (last_of_first text space start e)))
]

first-replicate : (n ch : ℕ) → find_first_not_of (replicate n ch) ch ≡ none
unfolding find_first_not_of
first-replicate zero ch = refl
first-replicate (suc n) ch = ground (arith, first-replicate n ch)

last-replicate : (n ch : ℕ) → find_last_not_of (replicate n ch) ch ≡ none
unfolding find_last_not_of
last-replicate zero ch = refl
last-replicate (suc n) ch = ground (arith, last-replicate n ch)

-- `trim_right` alone leaves a text of spaces as it is, and `trim` empties it.
pub trim_right-blank :
    (n : ℕ) → (trim_right (replicate n space) ≡ replicate n space) × (trim (replicate n space) ≡ [])
unfolding trim_right trim_copy
trim_right-blank n = (
  rw (trim_right, last-replicate n space),
  sym (trim_copy-trim (replicate n space)) ∙ rw (trim_copy, first-replicate n space),
)
