-- ===== src/DeviceMonitor/Expiry.antt =====
-- What `checkForExpiredAnnouncements` leaves, and which expirations the user hears of.
use devscan.Base.{
  ℕ, ◌≡◌, refl, Option, none, some, List, [], ◌∷◌, arith, if◌then◌else◌, Bool-cases, inl, inr, ltb,
}
use devscan.Base.Text.{Text, text_eq_iff}
use devscan.DeviceMonitor.Table.{lookup, IsTable}
use devscan.DeviceMonitor.State.{ExpiringEntry, Callback}
use devscan.DeviceMonitor.Process.{sweep}

-- An entry that has not expired.
abbrev pub alive : ℕ → Option ExpiringEntry → Option ExpiringEntry
alive now none = none
alive now (some e) = if ltb e.time_of_expiry now then none else some e

module _ (cb : Callback) (now : ℕ) where
  lookup-sweep-none :
      (key : Text) (l : List (Text × ExpiringEntry))
      → lookup key l ≡ none
      → lookup key (sweep cb now l).1 ≡ none
  unfolding sweep lookup
  lookup-sweep-none key [] h = refl
  lookup-sweep-none key ((j, e) ∷ l) h = ground (arith, lookup-sweep-none key l)

  pub lookup-sweep :
      (key : Text) (l : List (Text × ExpiringEntry))
      → IsTable l
      → lookup key (sweep cb now l).1 ≡ alive now (lookup key l)
  unfolding sweep lookup
  lookup-sweep key [] t = refl
  lookup-sweep key ((j, e) ∷ l) t =
      ground (arith, lookup-sweep key l t.1, lookup-sweep-none key l, text_eq_iff j key)

  pub sweep-IsTable : (l : List (Text × ExpiringEntry)) → IsTable l → IsTable (sweep cb now l).1
  unfolding sweep
  sweep-IsTable [] t = tt
  sweep-IsTable ((j, e) ∷ l) t = elim (Bool-cases (ltb e.time_of_expiry now)) [
    | inl gone ↦ rw gone (sweep-IsTable l t.1)
    | inr kept ↦ rw kept (lookup-sweep-none j l t.0, sweep-IsTable l t.1)
  ]
