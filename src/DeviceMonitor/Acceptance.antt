-- ===== src/DeviceMonitor/Acceptance.antt =====
-- What a message leaves in the object `DeviceMonitor`, and which calls it makes.
use devscan.Base.{
  ℕ, ◌≡◌, refl, ap, ◌∙◌, true, none, some, arith, if◌then◌else◌, Option-cases, Bool-cases, inl, inr,
}
use devscan.Base.Text.{Text, text_eq, text_eq_iff}
use devscan.Result.{Result, ok, throw, std_exception, other_exception}
use devscan.Json.{JsonLibrary}
use devscan.DeviceMonitor.Announcement.{Announcement, accepted, inspect}
use devscan.DeviceMonitor.CommunicationPath.{CommunicationPath, key_of}
use devscan.DeviceMonitor.Table.{lookup, put, lookup-put}
use devscan.DeviceMonitor.State.{
  Call, ExpiringEntry, DeviceMonitor, Callback, call_back, call_error_cb,
}
use devscan.DeviceMonitor.Process.{path_of, expiry, enter, catch_all, process_received_announcement}

-- The entry that an accepted message leaves.
abbrev pub entry_of : ℕ → Text → Announcement → ExpiringEntry
entry_of now message a = record { announcement = message; time_of_expiry = expiry now a }

pub announcements-call_back :
    (cb : Callback) (call : Call) (m : DeviceMonitor)
    → (call_back cb call m).1.announcements ≡ m.announcements
announcements-call_back none call m = refl
announcements-call_back (some cb) call m = refl

pub announcements-call_error_cb :
    (code : ℕ) (user_message message : Text) (m : DeviceMonitor)
    → (call_error_cb code user_message message m).announcements ≡ m.announcements
unfolding call_error_cb
announcements-call_error_cb code user_message message m = announcements-call_back m.error_cb _ m

pub announcements-catch_all :
    (message : Text) (outcome : Result (Unit {0})) (m : DeviceMonitor)
    → (catch_all message outcome m).announcements ≡ m.announcements
unfolding catch_all
announcements-catch_all message (ok _) m = refl
announcements-catch_all message (throw std_exception) m = announcements-call_error_cb _ _ message m
announcements-catch_all message (throw other_exception) m =
    announcements-call_error_cb _ _ message m

-- The same entry, written by the branch for a known text.
refreshed-entry_of :
    (now : ℕ) (message : Text) (a : Announcement) (old : ExpiringEntry)
    → text_eq message old.announcement ≡ true
    → record old { time_of_expiry = expiry now a } ≡ entry_of now message a
refreshed-entry_of now message a old h = ground (arith, text_eq_iff message old.announcement)

announcements-enter :
    (now : ℕ) (path : CommunicationPath) (message : Text) (a : Announcement) (m : DeviceMonitor)
    → (enter now path message a m).1.announcements
      ≡ put (key_of path) (entry_of now message a) m.announcements
unfolding enter
announcements-enter now path message a m =
    elim (Option-cases (lookup (key_of path) m.announcements)) [
      | inl e ↦ rw (enter, e) (announcements-call_back m.announce_cb _ _)
      | inr (old, e) ↦ elim (Bool-cases (text_eq message old.announcement)) [
        | inl same ↦
            rw (enter, e, same)
              (ap (λ x. put (key_of path) x m.announcements)
                (refreshed-entry_of now message a old same))
        | inr other ↦ rw (enter, e, other) (announcements-call_back m.announce_cb _ _)
      ]
    ]

module _ (json : JsonLibrary) (now : ℕ) (receiving_interface message : Text) (a : Announcement)
    (m : DeviceMonitor) (h : inspect json message ≡ ok (accepted a)) where
  pub announcements-process :
      (process_received_announcement json now receiving_interface message m).announcements
      ≡ put (key_of (path_of receiving_interface a)) (entry_of now message a) m.announcements
  unfolding process_received_announcement
  announcements-process =
      rw (process_received_announcement, h)
        (announcements-catch_all message _ _
          ∙ announcements-enter now (path_of receiving_interface a) message a m)

  -- An accepted message is the entry of its path from then on, with the time at which it expires; the
  -- entries of all other keys stay as they are. That holds whatever the callbacks return or throw.
  pub lookup-process :
      (key : Text)
      → lookup key
          (process_received_announcement json now receiving_interface message m).announcements
        ≡ (if text_eq (key_of (path_of receiving_interface a)) key
            then some (entry_of now message a)
            else lookup key m.announcements)
  lookup-process key = rw announcements-process (lookup-put key _ _ m.announcements)
