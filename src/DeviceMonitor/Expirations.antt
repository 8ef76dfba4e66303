-- ===== src/DeviceMonitor/Expirations.antt =====
-- The calls that `checkForExpiredAnnouncements` makes.
use devscan.Base.{
  ℕ, ◌<◌, ◌≡◌, refl, ap, ◌∙◌, true, ◌⊎◌, none, some, List, [], ◌∷◌, ◌++◌, arith, Bool-cases, inl,
  inr, ltb,
}
use devscan.Base.Text.{Text, text_eq, text_eq_iff, text_eq_refl}
use devscan.Result.{Result, Exception, ok, throw, std_exception}
use devscan.DeviceMonitor.CommunicationPath.{
  CommunicationPath, communication_path, key_of, HasNoColon, communication_path-key_of,
  communication_path-key_of_throws,
}
use devscan.DeviceMonitor.Table.{lookup, IsTable}
use devscan.DeviceMonitor.State.{Call, expire, ExpiringEntry, DeviceMonitor, Callback}
use devscan.DeviceMonitor.Process.{sweep, expire_call, check_for_expired_announcements}
use devscan.DeviceMonitor.Expiry.{alive, lookup-sweep}

abbrev pub Elem : {A : Type 0} → A → List A → Type 0
Elem a [] = ⊥
Elem a (x ∷ xs) = (x ≡ a) ⊎ Elem a xs

pub Elem-append_left : {A : Type 0} (a : A) (xs ys : List A) → Elem a xs → Elem a (xs ++ ys)
Elem-append_left a [] ys h = absurd h
Elem-append_left a (x ∷ xs) ys (inl e) = inl e
Elem-append_left a (x ∷ xs) ys (inr h) = inr (Elem-append_left a xs ys h)

pub Elem-append_right : {A : Type 0} (a : A) (xs ys : List A) → Elem a ys → Elem a (xs ++ ys)
Elem-append_right a [] ys h = h
Elem-append_right a (x ∷ xs) ys h = inr (Elem-append_right a xs ys h)

pub Elem-append : {A : Type 0} (a : A) (xs ys : List A) → Elem a (xs ++ ys) → Elem a xs ⊎ Elem a ys
Elem-append a [] ys h = inr h
Elem-append a (x ∷ xs) ys (inl e) = inl (inl e)
Elem-append a (x ∷ xs) ys (inr h) = elim (Elem-append a xs ys h) [
  | inl l ↦ inl (inr l)
  | inr r ↦ inr r
]

module _ (f : Call → Result (Unit {0})) (now : ℕ) where
  sweep-calls_found :
      (p : CommunicationPath) (e : ExpiringEntry) (l : List (Text × ExpiringEntry))
      → HasNoColon p
      → lookup (key_of p) l ≡ some e
      → e.time_of_expiry < now
      → Elem (expire p) (sweep (some f) now l).0
  unfolding sweep lookup
  sweep-calls_found p e [] n h lt = cc
  sweep-calls_found p e ((j, x) ∷ l) n h lt = elim (Bool-cases (text_eq j (key_of p))) [
    | inl same ↦
        let j_key : j ≡ key_of p = (text_eq_iff j (key_of p)).0 same in
        let x_e : x ≡ e = ground (arith, h) in
        let gone : ltb x.time_of_expiry now ≡ true = ground (arith, x_e) in
        rw (gone, j_key, communication_path-key_of p n) (inl refl)
    | inr other ↦
        let later = sweep-calls_found p e l n (ground (arith, h)) lt in
        elim (Bool-cases (ltb x.time_of_expiry now)) [
          | inl gone ↦
              rw gone
                (Elem-append_right (expire p) (expire_call (some f) (communication_path j)) _ later)
          | inr kept ↦ rw kept later
        ]
  ]

expire_call-throw : (cb : Callback) (x : Exception) → expire_call cb (throw x) ≡ []
expire_call-throw none x = refl
expire_call-throw (some f) x = refl

-- An entry that has expired, with a key that is no path, leaves no trace in a sweep.
sweep-misses :
    (cb : Callback) (now : ℕ) (key : Text) (e : ExpiringEntry)
    (behind : List (Text × ExpiringEntry))
    → communication_path key ≡ throw std_exception
    → ltb e.time_of_expiry now ≡ true
    → (before : List (Text × ExpiringEntry))
    → sweep cb now (before ++ (key, e) ∷ behind) ≡ sweep cb now (before ++ behind)
unfolding sweep
sweep-misses cb now key e behind no_path late [] =
    rw (late, no_path, expire_call-throw cb std_exception)
sweep-misses cb now key e behind no_path late ((j, x) ∷ before) =
    rw (sweep-misses cb now key e behind no_path late before)

-- An entry that has expired, and the call that reports it.
pub record IsLate (now : ℕ) (l : List (Text × ExpiringEntry)) (c : Call) : Type 0 where
  pub key : Text
  pub entry : ExpiringEntry
  pub path : CommunicationPath
  pub found : lookup key l ≡ some entry
  pub late : entry.time_of_expiry < now
  pub parsed : communication_path key ≡ ok path
  pub reports : expire path ≡ c

IsLate-of_call :
    (cb : Callback) (now : ℕ) (c : Call) (key : Text) (e : ExpiringEntry)
    (l : List (Text × ExpiringEntry)) (r : Result CommunicationPath)
    → communication_path key ≡ r
    → ltb e.time_of_expiry now ≡ true
    → Elem c (expire_call cb r)
    → IsLate now ((key, e) ∷ l) c
unfolding lookup
IsLate-of_call none now c key e l r parsed late h = absurd h
IsLate-of_call (some f) now c key e l (throw x) parsed late h = absurd h
IsLate-of_call (some f) now c key e l (ok path) parsed late (inr h) = absurd h
IsLate-of_call (some f) now c key e l (ok path) parsed late (inl h) = record {
  key = key;
  entry = e;
  path = path;
  found = rw text_eq_refl;
  late = ground arith;
  parsed = parsed;
  reports = h;
}

module _ (cb : Callback) (now : ℕ) (c : Call) where
  IsLate-cons :
      (j : Text) (e : ExpiringEntry) (l : List (Text × ExpiringEntry))
      → lookup j l ≡ none
      → IsLate now l c
      → IsLate now ((j, e) ∷ l) c
  unfolding lookup
  IsLate-cons j e l fresh x = record {
    key = x.key;
    entry = x.entry;
    path = x.path;
    found = ground (arith, x.found, text_eq_iff j x.key);
    late = x.late;
    parsed = x.parsed;
    reports = x.reports;
  }

  -- Whatever a sweep reports is the path of a known entry that has expired.
  sweep-calls_Expired :
      (l : List (Text × ExpiringEntry)) → IsTable l → Elem c (sweep cb now l).0 → IsLate now l c
  unfolding sweep
  sweep-calls_Expired [] t h = absurd h
  sweep-calls_Expired ((j, e) ∷ l) t h = elim (Bool-cases (ltb e.time_of_expiry now)) [
    | inl gone ↦ elim (Elem-append c (expire_call cb (communication_path j)) _ (rw gone at h)) [
      | inl here ↦ IsLate-of_call cb now c j e l (communication_path j) refl gone here
      | inr later ↦ IsLate-cons j e l t.0 (sweep-calls_Expired l t.1 later)
    ]
    | inr kept ↦ IsLate-cons j e l t.0 (sweep-calls_Expired l t.1 (rw kept at h))
  ]

module _ (now : ℕ) (m : DeviceMonitor) where
  -- Behind the check an entry is known exactly if it was known and had not expired.
  pub lookup-check_for_expired :
      (key : Text)
      → IsTable m.announcements
      → lookup key (check_for_expired_announcements now m).announcements
        ≡ alive now (lookup key m.announcements)
  unfolding check_for_expired_announcements
  lookup-check_for_expired key t = lookup-sweep m.expire_cb now key m.announcements t

  -- Every known path that has expired, without a colon in its parts, is reported to the expire
  -- callback.
  pub check_for_expired-reports :
      (f : Call → Result (Unit {0})) (p : CommunicationPath) (e : ExpiringEntry)
      → m.expire_cb ≡ some f
      → HasNoColon p
      → lookup (key_of p) m.announcements ≡ some e
      → e.time_of_expiry < now
      → Elem (expire p) (check_for_expired_announcements now m).calls
  unfolding check_for_expired_announcements
  check_for_expired-reports f p e set n found late =
      Elem-append_right (expire p) m.calls _
        (rw set (sweep-calls_found f now p e m.announcements n found late))

  -- A call behind the check is one from before, or it reports the path of a known entry that had
  -- expired; the path has no colon in its parts.
  pub check_for_expired-IsLate :
      (c : Call)
      → IsTable m.announcements
      → Elem c (check_for_expired_announcements now m).calls
      → Elem c m.calls ⊎ IsLate now m.announcements c
  unfolding check_for_expired_announcements
  check_for_expired-IsLate c t h = elim (Elem-append c m.calls _ h) [
    | inl before ↦ inl before
    | inr new ↦ inr (sweep-calls_Expired m.expire_cb now c m.announcements t new)
  ]

  -- The expiry of a path with a colon in a part, such as the name of an alias interface, makes no call
  -- at all: wherever its entry stands among the others, the check makes the calls, and leaves the
  -- entries, that it would make and leave if the entry had never been there.
  pub check_for_expired-misses :
      (p : CommunicationPath) (e : ExpiringEntry) (before behind : List (Text × ExpiringEntry))
      → m.announcements ≡ before ++ (key_of p, e) ∷ behind
      → ¬ HasNoColon p
      → e.time_of_expiry < now
      → check_for_expired_announcements now m
        ≡ check_for_expired_announcements now (record m { announcements = before ++ behind })
  unfolding check_for_expired_announcements
  check_for_expired-misses p e before behind stands colon late =
      ap
        (λ (swept : List Call × List (Text × ExpiringEntry)). record m {
          announcements = swept.1;
          calls = m.calls ++ swept.0;
        })
        (ap (sweep m.expire_cb now) stands
          ∙ sweep-misses m.expire_cb now (key_of p) e behind
              (communication_path-key_of_throws p colon) (ground arith) before)
