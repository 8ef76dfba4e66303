-- ===== src/DeviceMonitor/Table.antt =====
-- `std::unordered_map` with text keys, as a list of pairs with distinct keys. The order in which the
-- map is walked is the order of the list; the library leaves it open.
use devscan.Base.{
  ◌≡◌, refl, Option, none, some, List, [], ◌∷◌, arith, Bool-cases, inl, inr, if◌then◌else◌,
}
use devscan.Base.Text.{Text, text_eq, text_eq_iff, text_eq_refl}

module _ {ℓ} {V : Type ℓ} where
  -- `find`
  unfoldable pub lookup : Text → List (Text × V) → Option V
  lookup k [] = none
  lookup k ((j, v) ∷ l) = if text_eq j k then some v else lookup k l

  -- `m[key] = value`
  unfoldable pub put : Text → V → List (Text × V) → List (Text × V)
  put k v [] = (k, v) ∷ []
  put k v ((j, w) ∷ l) = if text_eq j k then (j, v) ∷ l else (j, w) ∷ put k v l

  -- The keys are distinct.
  abbrev pub IsTable : List (Text × V) → Type ℓ
  IsTable [] = Unit
  IsTable ((k, v) ∷ l) = (lookup k l ≡ none) × IsTable l

module _ {ℓ} {V : Type ℓ} where
  pub lookup-put :
      (j k : Text) (v : V) (l : List (Text × V))
      → lookup j (put k v l) ≡ (if text_eq k j then some v else lookup j l)
  unfolding lookup put
  lookup-put j k v [] = refl
  lookup-put j k v ((i, w) ∷ l) =
      ground (arith, lookup-put j k v l, text_eq_iff i k, text_eq_iff i j, text_eq_iff k j)

  pub lookup-put_self : (k : Text) (v : V) (l : List (Text × V)) → lookup k (put k v l) ≡ some v
  lookup-put_self k v l = rw (lookup-put, text_eq_refl k)

  pub put-IsTable : (k : Text) (v : V) (l : List (Text × V)) → IsTable l → IsTable (put k v l)
  unfolding put lookup
  put-IsTable k v [] h = (refl, tt)
  put-IsTable k v ((j, w) ∷ l) h = elim (Bool-cases (text_eq j k)) [
    | inl e ↦ rw e h
    | inr e ↦ rw e (
      ground (arith, lookup-put j k v l, text_eq_iff j k, text_eq_iff k j),
      put-IsTable k v l h.1,
    )
  ]
