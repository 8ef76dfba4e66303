-- ===== src/DeviceMonitor/Replay.antt =====
-- What a new announce callback hears of the announcements that are known.
use devscan.Base.{◌≡◌, refl, ap, ◌⊎◌, inl, inr, some, List, [], ◌∷◌, arith, Bool-cases}
use devscan.Base.Text.{Text, text_eq, text_eq_iff, text_eq_refl}
use devscan.Result.{Result, ok, throw}
use devscan.DeviceMonitor.CommunicationPath.{
  CommunicationPath, communication_path, key_of, HasNoColon, communication_path-key_of,
}
use devscan.DeviceMonitor.Table.{lookup, IsTable}
use devscan.DeviceMonitor.State.{
  Call, announce, ExpiringEntry, DeviceMonitor, replay_call, replay_calls, set_announce_cb,
}
use devscan.DeviceMonitor.Expirations.{Elem, Elem-append, Elem-append_right}

replay_calls-found :
    (p : CommunicationPath) (e : ExpiringEntry) (l : List (Text × ExpiringEntry))
    → HasNoColon p
    → lookup (key_of p) l ≡ some e
    → Elem (announce p e.announcement) (replay_calls l)
unfolding replay_calls lookup
replay_calls-found p e [] n h = cc
replay_calls-found p e ((j, x) ∷ l) n h = elim (Bool-cases (text_eq j (key_of p))) [
  | inl same ↦
      let j_key : j ≡ key_of p = (text_eq_iff j (key_of p)).0 same in
      let x_e : x ≡ e = ground (arith, h) in
      rw (j_key, communication_path-key_of p n)
        (inl (ap (λ (y : ExpiringEntry). announce p y.announcement) x_e))
  | inr other ↦
      Elem-append_right _ (replay_call (communication_path j) x.announcement) _
        (replay_calls-found p e l n (ground (arith, h)))
]

-- An announcement that is known, and the call that tells of it.
pub record Known (l : List (Text × ExpiringEntry)) (c : Call) : Type 0 where
  pub key : Text
  pub entry : ExpiringEntry
  pub path : CommunicationPath
  pub found : lookup key l ≡ some entry
  pub parsed : communication_path key ≡ ok path
  pub reports : announce path entry.announcement ≡ c

Known-of_call :
    (c : Call) (key : Text) (e : ExpiringEntry) (l : List (Text × ExpiringEntry))
    (r : Result CommunicationPath)
    → communication_path key ≡ r
    → Elem c (replay_call r e.announcement)
    → Known ((key, e) ∷ l) c
unfolding lookup
Known-of_call c key e l (throw x) parsed h = absurd h
Known-of_call c key e l (ok path) parsed (inr h) = absurd h
Known-of_call c key e l (ok path) parsed (inl h) = record {
  key = key;
  entry = e;
  path = path;
  found = rw text_eq_refl;
  parsed = parsed;
  reports = h;
}

replay_calls-Known :
    (c : Call) (l : List (Text × ExpiringEntry)) → IsTable l → Elem c (replay_calls l) → Known l c
unfolding replay_calls lookup
replay_calls-Known c [] t h = absurd h
replay_calls-Known c ((j, e) ∷ l) t h =
    elim (Elem-append c (replay_call (communication_path j) e.announcement) _ h) [
      | inl here ↦ Known-of_call c j e l (communication_path j) refl here
      | inr later ↦
          let x = replay_calls-Known c l t.1 later in
          record {
            key = x.key;
            entry = x.entry;
            path = x.path;
            found = ground (arith, x.found, t.0, text_eq_iff j x.key);
            parsed = x.parsed;
            reports = x.reports;
          }
    ]

module _ (f : Call → Result (Unit {0})) (m : DeviceMonitor) where
  -- A callback that is set hears at once of every known announcement without a colon in its path.
  pub set_announce_cb-tells :
      (p : CommunicationPath) (e : ExpiringEntry)
      → HasNoColon p
      → lookup (key_of p) m.announcements ≡ some e
      → Elem (announce p e.announcement) (set_announce_cb (some f) m).calls
  unfolding set_announce_cb
  set_announce_cb-tells p e n h =
      Elem-append_right _ m.calls _ (replay_calls-found p e m.announcements n h)

  -- It hears of known announcements alone: any other call was made before.
  set_announce_cb-Known :
      (c : Call)
      → IsTable m.announcements
      → Elem c (set_announce_cb (some f) m).calls
      → Elem c m.calls ⊎ Known m.announcements c
  unfolding set_announce_cb
  set_announce_cb-Known c t h = elim (Elem-append c m.calls _ h) [
    | inl before ↦ inl before
    | inr new ↦ inr (replay_calls-Known c m.announcements t new)
  ]
