-- ===== src/DeviceMonitor/Process.antt =====
-- `processReceivedAnnouncement` and the expiry of devscanclient/lib/devicemonitor.cpp. The time of the
-- steady clock is an argument.
use Prim.Native.Nat.{bit_or}
use devscan.Base.{
  ℕ, ◌+◌, ◌*◌, Bool, true, false, none, some, List, [], ◌∷◌, ◌++◌, ltb, if◌then◌else◌,
}
use devscan.Base.Text.{Text, codes, text_eq}
use devscan.Result.{Result, ok, throw, std_exception, other_exception}
use devscan.Json.{JsonLibrary}
use devscan.DeviceMonitor.Announcement.{
  Announcement, Verdict, accepted, refused, inspect, data_dropped, e_exception1, e_exception2,
}
use devscan.DeviceMonitor.CommunicationPath.{CommunicationPath, communication_path, key_of}
use devscan.DeviceMonitor.Table.{lookup, put}
use devscan.DeviceMonitor.State.{
  Call, announce, expire, ExpiringEntry, DeviceMonitor, Callback, call_back, call_error_cb,
}

-- The steady clock counts nanoseconds.
abbrev pub ticks_per_second : ℕ
ticks_per_second = 1000000000

abbrev pub path_of : Text → Announcement → CommunicationPath
path_of receiving_interface a = record {
  receiving_interface = receiving_interface;
  uuid = a.uuid;
  sending_interface = a.sending_interface;
  router = a.router;
}

abbrev pub expiry : ℕ → Announcement → ℕ
expiry now a = now + a.expire * ticks_per_second

abbrev pub store : Text → ExpiringEntry → DeviceMonitor → DeviceMonitor
store key entry m = record m { announcements = put key entry m.announcements }

-- Stores an entry whose text is new, and tells the user.
store_message :
    ℕ → CommunicationPath → Text → Announcement → DeviceMonitor → Result (Unit {0}) × DeviceMonitor
store_message now path message a m =
    call_back m.announce_cb (announce path message)
      (store (key_of path) (record { announcement = message; time_of_expiry = expiry now a }) m)

-- The end of the `try` block: `find`, and the branch for a known and for a new entry.
unfoldable pub enter :
    ℕ → CommunicationPath → Text → Announcement → DeviceMonitor → Result (Unit {0}) × DeviceMonitor
unfolding store_message
enter now path message a m = elim (lookup (key_of path) m.announcements) [
  | none ↦ store_message now path message a m
  | some current_entry ↦
      let refreshed = record current_entry { time_of_expiry = expiry now a } in
      if text_eq message current_entry.announcement
      then (ok tt, store (key_of path) refreshed m)
      else store_message now path message a m
]

-- The `catch` clauses, behind the object that the `try` block left.
unfoldable pub catch_all : Text → Result (Unit {0}) → DeviceMonitor → DeviceMonitor
catch_all message (ok _) m = m
catch_all message (throw std_exception) m =
    call_error_cb (bit_or data_dropped e_exception1) (codes "Receiving error 1") message m
catch_all message (throw other_exception) m =
    call_error_cb (bit_or data_dropped e_exception2) (codes "Receiving error 2") message m

-- What follows the checks.
unfoldable pub conclude : ℕ → Text → Text → Result Verdict → DeviceMonitor → DeviceMonitor
unfolding catch_all
conclude now receiving_interface message (throw e) m = catch_all message (throw e) m
conclude now receiving_interface message (ok (refused code user_message)) m =
    call_error_cb code user_message message m
conclude now receiving_interface message (ok (accepted a)) m =
    let (outcome, m') = enter now (path_of receiving_interface a) message a m in
    catch_all message outcome m'

unfoldable pub process_received_announcement :
    JsonLibrary → ℕ → Text → Text → DeviceMonitor → DeviceMonitor
unfolding conclude
process_received_announcement json now receiving_interface message m =
    conclude now receiving_interface message (inspect json message) m

-- The call for an entry that is erased; a key that is no path is passed over.
abbrev pub expire_call : Callback → Result CommunicationPath → List Call
expire_call none path = []
expire_call (some cb) (ok path) = expire path ∷ []
expire_call (some cb) (throw e) = []

-- The loop over the entries: the calls that it makes, and the entries that it leaves.
unfoldable pub sweep :
    Callback → ℕ → List (Text × ExpiringEntry) → List Call × List (Text × ExpiringEntry)
sweep cb now [] = ([], [])
sweep cb now ((key, entry) ∷ rest) =
    let (calls, kept) = sweep cb now rest in
    if ltb entry.time_of_expiry now
    then (expire_call cb (communication_path key) ++ calls, kept)
    else (calls, (key, entry) ∷ kept)

unfoldable pub check_for_expired_announcements : ℕ → DeviceMonitor → DeviceMonitor
unfolding sweep
check_for_expired_announcements time_now m =
    let (calls, kept) = sweep m.expire_cb time_now m.announcements in
    record m { announcements = kept; calls = m.calls ++ calls }

unfoldable pub check_for_expired_timer_cb : Bool → ℕ → DeviceMonitor → DeviceMonitor
unfolding check_for_expired_announcements
check_for_expired_timer_cb false time_now m = m
check_for_expired_timer_cb true time_now m = check_for_expired_announcements time_now m
