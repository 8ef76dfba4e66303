-- ===== src/DeviceMonitor/History.antt =====
-- Sequences of operations on the object `DeviceMonitor`: messages, timer events and changed callbacks
-- in any order, against an abstract registry that maps keys to entries and knows no order.
use devscan.Base.{ℕ, Bool, true, Option, some, List, [], ◌∷◌, if◌then◌else◌}
use devscan.Base.Text.{Text, text_eq}
use devscan.Result.{Result, ok, throw}
use devscan.Json.{JsonLibrary}
use devscan.DeviceMonitor.Announcement.{Verdict, accepted, refused, inspect}
use devscan.DeviceMonitor.CommunicationPath.{key_of}
use devscan.DeviceMonitor.State.{
  Callback, ExpiringEntry, DeviceMonitor, set_announce_cb, set_expire_cb, set_error_cb,
}
use devscan.DeviceMonitor.Process.{
  path_of, process_received_announcement, check_for_expired_timer_cb,
}
use devscan.DeviceMonitor.Acceptance.{entry_of}
use devscan.DeviceMonitor.Expiry.{alive}

pub data Event : Type 0 where
  -- time, receiving interface, message
  received : ℕ → Text → Text → Event
  -- whether the timer fired, time
  timer : Bool → ℕ → Event
  announce_cb_set expire_cb_set error_cb_set : Callback → Event

-- The registry.
abbrev pub Known : Type 0
Known = Text → Option ExpiringEntry

module _ (json : JsonLibrary) where
  unfoldable pub step : Event → DeviceMonitor → DeviceMonitor
  step (received now receiving_interface message) m =
      process_received_announcement json now receiving_interface message m
  step (timer fired now) m = check_for_expired_timer_cb fired now m
  step (announce_cb_set cb) m = set_announce_cb cb m
  step (expire_cb_set cb) m = set_expire_cb cb m
  step (error_cb_set cb) m = set_error_cb cb m

  unfoldable pub run : List Event → DeviceMonitor → DeviceMonitor
  unfolding step
  run [] m = m
  run (e ∷ es) m = run es (step e m)

  -- An accepted message is the entry of its key from then on.
  unfoldable pub remember : ℕ → Text → Text → Result Verdict → Known → Known
  remember now receiving_interface message (throw e) known key = known key
  remember now receiving_interface message (ok (refused code t)) known key = known key
  remember now receiving_interface message (ok (accepted a)) known key =
      if text_eq (key_of (path_of receiving_interface a)) key
      then some (entry_of now message a)
      else known key

  -- A step of the registry.
  unfoldable pub spec_step : Event → Known → Known
  unfolding remember
  spec_step (received now receiving_interface message) known key =
      remember now receiving_interface message (inspect json message) known key
  spec_step (timer true now) known key = alive now (known key)
  spec_step _ known key = known key

  unfoldable pub spec_run : List Event → Known → Known
  unfolding spec_step
  spec_run [] known = known
  spec_run (e ∷ es) known = spec_run es (spec_step e known)
