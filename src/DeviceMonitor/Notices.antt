-- ===== src/DeviceMonitor/Notices.antt =====
-- Which calls of the user a message leads to.
use Prim.Native.Nat.{bit_or}
use devscan.Base.{
  ℕ, ◌≡◌, refl, sym, ◌∙◌, Bool, true, false, not, Option, none, some, List, [], ◌∷◌, ◌++◌, arith,
  if◌then◌else◌, Bool-cases, inl, inr, append-nil, append_assoc,
}
use devscan.Base.Text.{Text, codes, text_eq, text_eq_refl}
use devscan.Result.{Exception, Result, ok, throw, std_exception, other_exception}
use devscan.Json.{JsonLibrary}
use devscan.DeviceMonitor.Announcement.{
  Announcement, accepted, inspect, data_dropped, e_exception1, e_exception2,
}
use devscan.DeviceMonitor.CommunicationPath.{CommunicationPath, key_of}
use devscan.DeviceMonitor.Table.{lookup}
use devscan.DeviceMonitor.State.{
  Call, announce, error, ExpiringEntry, DeviceMonitor, Callback, call_back, call_error_cb,
}
use devscan.DeviceMonitor.Process.{path_of, store, enter, catch_all, process_received_announcement}
use devscan.DeviceMonitor.Acceptance.{entry_of, lookup-process}

-- The call that a callback that is set gets.
abbrev pub told : Callback → Call → List Call
told none call = []
told (some cb) call = call ∷ []

-- The path has no entry yet, or one with another text.
abbrev pub is_news : Text → Option ExpiringEntry → Bool
is_news message none = true
is_news message (some e) = not (text_eq message e.announcement)

-- The callback is not set, or returns from the call.
abbrev pub Returns : Callback → Call → Type 0
Returns none call = Unit
Returns (some cb) call = cb call ≡ ok tt

enter-known :
    (now : ℕ) (path : CommunicationPath) (message : Text) (a : Announcement) (m : DeviceMonitor)
    → is_news message (lookup (key_of path) m.announcements) ≡ false
    → ((enter now path message a m).0 ≡ ok tt) × ((enter now path message a m).1.calls ≡ m.calls)
unfolding enter
enter-known now path message a m h = ground arith

enter-news :
    (now : ℕ) (path : CommunicationPath) (message : Text) (a : Announcement) (m : DeviceMonitor)
    → is_news message (lookup (key_of path) m.announcements) ≡ true
    → enter now path message a m
      ≡ call_back m.announce_cb
          (announce path message)
          (store (key_of path) (entry_of now message a) m)
unfolding enter
enter-news now path message a m h = ground arith

pub calls-call_back :
    (cb : Callback) (call : Call) (m : DeviceMonitor)
    → (call_back cb call m).1.calls ≡ m.calls ++ told cb call
calls-call_back none call m = sym (append-nil m.calls)
calls-call_back (some cb) call m = refl

error_cb-call_back :
    (cb : Callback) (call : Call) (m : DeviceMonitor)
    → (call_back cb call m).1.error_cb ≡ m.error_cb
error_cb-call_back none call m = refl
error_cb-call_back (some cb) call m = refl

Returns-ok :
    (cb : Callback) (call : Call) (m : DeviceMonitor)
    → Returns cb call
    → (call_back cb call m).0 ≡ ok tt
Returns-ok none call m h = refl
Returns-ok (some cb) call m h = h

pub calls-call_error_cb :
    (code : ℕ) (user_message message : Text) (m : DeviceMonitor)
    → (call_error_cb code user_message message m).calls
      ≡ m.calls ++ told m.error_cb (error code user_message message)
unfolding call_error_cb
calls-call_error_cb code user_message message m = calls-call_back m.error_cb _ m

-- The number that `catch` reports for an exception.
abbrev pub exception_number : Exception → ℕ
exception_number std_exception = e_exception1
exception_number other_exception = e_exception2

abbrev pub exception_message : Exception → Text
exception_message std_exception = codes "Receiving error 1"
exception_message other_exception = codes "Receiving error 2"

pub catch_all-throw :
    (message : Text) (e : Exception) (m : DeviceMonitor)
    → catch_all message (throw e) m
      ≡ call_error_cb (bit_or data_dropped (exception_number e)) (exception_message e) message m
unfolding catch_all
catch_all-throw message std_exception m = refl
catch_all-throw message other_exception m = refl

module _ (json : JsonLibrary) (now : ℕ) (receiving_interface message : Text) (a : Announcement)
    (m : DeviceMonitor) (h : inspect json message ≡ ok (accepted a)) where
  path : CommunicationPath
  path = path_of receiving_interface a

  stored : DeviceMonitor
  stored = store (key_of path) (entry_of now message a) m

  -- The same text again makes no call. A new or a changed text makes one call of the announce
  -- callback, if that is set, and where it returns no other call.
  pub calls-process :
      Returns m.announce_cb (announce (path_of receiving_interface a) message)
      → (process_received_announcement json now receiving_interface message m).calls ≡ (
          if is_news message (lookup (key_of (path_of receiving_interface a)) m.announcements)
          then m.calls ++ told m.announce_cb (announce (path_of receiving_interface a) message)
          else m.calls)
  unfolding process_received_announcement path stored catch_all
  calls-process r =
      elim (Bool-cases
        (is_news message (lookup (key_of (path_of receiving_interface a)) m.announcements))) [
          | inl news ↦
              rw
                (
                  process_received_announcement,
                  h,
                  enter-news now path message a m news,
                  news,
                  Returns-ok m.announce_cb (announce path message) stored r,
                )
                (calls-call_back m.announce_cb (announce path message) stored)
          | inr known ↦
              let e = enter-known now path message a m known in
              rw (process_received_announcement, h, e.0, known) e.1
        ]

  -- Where the announce callback throws, the message has been handed over and its entry is kept, and
  -- the error callback, if that is set, hears that the data was dropped.
  calls-process_throws :
      (cb : Call → Result (Unit {0})) (e : Exception)
      → m.announce_cb ≡ some cb
      → cb (announce (path_of receiving_interface a) message) ≡ throw e
      → is_news message (lookup (key_of (path_of receiving_interface a)) m.announcements) ≡ true
      → ((process_received_announcement json now receiving_interface message m).calls
          ≡ m.calls
            ++ (announce (path_of receiving_interface a) message
                ∷ told m.error_cb (
                    error
                      (bit_or data_dropped (exception_number e))
                      (exception_message e)
                      message)))
        × (lookup
              (key_of (path_of receiving_interface a))
              (process_received_announcement json now receiving_interface message m).announcements
            ≡ some (entry_of now message a))
  unfolding process_received_announcement path stored
  calls-process_throws cb e set thrown news = (
    rw (process_received_announcement, h, enter-news now path message a m news, set, thrown)
        (rw catch_all-throw (
          calls-call_error_cb _ _ message _ ∙ append_assoc m.calls (announce path message ∷ []) _)),
    lookup-process json now receiving_interface message a m h (key_of path) ∙ rw text_eq_refl,
  )
