-- ===== src/DeviceMonitor/State.antt =====
-- The object `DeviceMonitor`, its callbacks, and the record of the calls that it made. A callback of
-- the user is a function from what it is called with to whether it returns or throws; it does not
-- call the object back, which is not reentrant.
use devscan.Base.{ℕ, Option, none, some, List, [], ◌∷◌, ◌++◌}
use devscan.Base.Text.{Text}
use devscan.Result.{Result, ok, throw}
use devscan.DeviceMonitor.CommunicationPath.{CommunicationPath, communication_path}

pub data Call : Type 0 where
  -- path, announcement
  announce : CommunicationPath → Text → Call
  expire : CommunicationPath → Call
  -- error code, message for the user, received data
  error : ℕ → Text → Text → Call

abbrev pub Callback : Type 0
Callback = Option (Call → Result (Unit {0}))

-- `expiringEntry`, its time in ticks of the steady clock.
pub record ExpiringEntry : Type 0 where
  pub announcement : Text
  pub time_of_expiry : ℕ

pub record DeviceMonitor : Type 0 where
  pub announcements : List (Text × ExpiringEntry)
  pub announce_cb : Callback
  pub expire_cb : Callback
  pub error_cb : Callback
  pub calls : List Call

abbrev pub empty : DeviceMonitor
empty = record {
  announcements = [];
  announce_cb = none;
  expire_cb = none;
  error_cb = none;
  calls = [];
}

-- `if (cb) cb(...)`: whether the call threw, and the object behind it.
abbrev pub call_back : Callback → Call → DeviceMonitor → Result (Unit {0}) × DeviceMonitor
call_back none call m = (ok tt, m)
call_back (some cb) call m = (cb call, record m { calls = m.calls ++ call ∷ [] })

-- What the callback throws is swallowed.
unfoldable pub call_error_cb : ℕ → Text → Text → DeviceMonitor → DeviceMonitor
call_error_cb error_code user_message announcement m =
    (call_back m.error_cb (error error_code user_message announcement) m).1

unfoldable pub set_expire_cb : Callback → DeviceMonitor → DeviceMonitor
set_expire_cb cb m = record m { expire_cb = cb }

unfoldable pub set_error_cb : Callback → DeviceMonitor → DeviceMonitor
set_error_cb cb m = record m { error_cb = cb }

-- The path of a stored key, and what it is announced with; a key that is no path is passed over, and
-- so is what the callback throws.
abbrev pub replay_call : Result CommunicationPath → Text → List Call
replay_call (ok path) announcement = announce path announcement ∷ []
replay_call (throw e) announcement = []

unfoldable pub replay_calls : List (Text × ExpiringEntry) → List Call
replay_calls [] = []
replay_calls ((key, entry) ∷ rest) =
    replay_call (communication_path key) entry.announcement ++ replay_calls rest

unfoldable pub set_announce_cb : Callback → DeviceMonitor → DeviceMonitor
unfolding replay_calls
set_announce_cb none m = record m { announce_cb = none }
set_announce_cb (some cb) m = record m {
  announce_cb = some cb;
  calls = m.calls ++ replay_calls m.announcements;
}
