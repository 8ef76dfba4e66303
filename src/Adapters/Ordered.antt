-- ===== src/Adapters/Ordered.antt =====
-- The map of adapters keeps its keys in order, and a change at an index is seen there alone.
use devscan.Base.{
  ℕ, ◌<◌, ◌≡◌, refl, ◌==◌, ltb, Option, none, some, [], ◌∷◌, arith, if◌then◌else◌, Bool-cases, inl,
  inr,
}
use devscan.Adapters.Netadapter.{Netadapter, empty}
use devscan.Adapters.Enumeration.{Adapters, find_adapter, update_adapter}

-- The keys go up.
abbrev pub Above : ℕ → Adapters → Type 0
Above k [] = Unit
Above k ((j, a) ∷ rest) = (k < j) × Above k rest

abbrev pub IsOrdered : Adapters → Type 0
IsOrdered [] = Unit
IsOrdered ((k, a) ∷ rest) = Above k rest × IsOrdered rest

abbrev pub or_empty : Option Netadapter → Netadapter
or_empty none = empty
or_empty (some adapter) = adapter

Above-trans : (i k : ℕ) (m : Adapters) → i < k → Above k m → Above i m
Above-trans i k [] h t = tt
Above-trans i k ((j, a) ∷ rest) h t = (omega (arith, t.0), Above-trans i k rest h t.1)

find_adapter-Above : (i : ℕ) (m : Adapters) → Above i m → find_adapter i m ≡ none
unfolding find_adapter
find_adapter-Above i [] t = refl
find_adapter-Above i ((j, a) ∷ rest) t = ground (arith, t.0, find_adapter-Above i rest t.1)

module _ (i : ℕ) (f : Netadapter → Netadapter) where
  update_adapter-Above : (k : ℕ) (m : Adapters) → k < i → Above k m → Above k (update_adapter i f m)
  unfolding update_adapter
  update_adapter-Above k [] h t = (h, tt)
  update_adapter-Above k ((j, a) ∷ rest) h t = elim (Bool-cases (j == i)) [
    | inl same ↦ rw same t
    | inr other ↦ elim (Bool-cases (ltb i j)) [
      | inl before ↦ rw (other, before) (h, (ground (arith, before), t.1))
      | inr behind ↦ rw (other, behind) (t.0, update_adapter-Above k rest h t.1)
    ]
  ]

  pub update_adapter-IsOrdered : (m : Adapters) → IsOrdered m → IsOrdered (update_adapter i f m)
  unfolding update_adapter
  update_adapter-IsOrdered [] t = (tt, tt)
  update_adapter-IsOrdered ((j, a) ∷ rest) t = elim (Bool-cases (j == i)) [
    | inl same ↦ rw same t
    | inr other ↦ elim (Bool-cases (ltb i j)) [
      | inl before ↦
          let lt : i < j = ground (arith, before) in
          rw (other, before) ((lt, Above-trans i j rest lt t.0), t)
      | inr behind ↦
          rw (other, behind)
            (
              update_adapter-Above j rest (ground (arith, other, behind)) t.0,
              update_adapter-IsOrdered rest t.1,
            )
    ]
  ]

  pub find_adapter-update_adapter :
      (j : ℕ) (m : Adapters)
      → IsOrdered m
      → find_adapter j (update_adapter i f m)
        ≡ (if i == j then some (f (or_empty (find_adapter j m))) else find_adapter j m)
  unfolding find_adapter update_adapter
  find_adapter-update_adapter j [] t = ground arith
  find_adapter-update_adapter j ((k, a) ∷ rest) t = ground (
    arith,
    find_adapter-update_adapter j rest t.1,
    (λ (h : i < k). find_adapter-Above i rest (Above-trans i k rest h t.0)),
  )
