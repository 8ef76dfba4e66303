-- ===== src/DeviceMonitor/Refusal.antt =====
-- What a message that is not accepted leaves, and what the user hears of it.
use Prim.Native.Nat.{bit_or}
use devscan.Base.{ℕ, ◌+◌, ◌≤◌, ◌<◌, ◌≡◌, ◌≢◌, refl, false, ◌++◌, arith}
use devscan.Base.Text.{Text, is_empty}
use devscan.Result.{Exception, Result, ok, throw, std_exception, other_exception}
use devscan.Json.{JsonLibrary}
use devscan.DeviceMonitor.Announcement.{
  Announcement, Verdict, accepted, refused, inspect, inspect_document, inspect_params, inspect_uuid,
  inspect_expiration, data_dropped,
}
use devscan.DeviceMonitor.State.{error, DeviceMonitor, call_error_cb}
use devscan.DeviceMonitor.Process.{process_received_announcement, conclude}
use devscan.DeviceMonitor.Acceptance.{announcements-call_error_cb}
use devscan.DeviceMonitor.Notices.{
  told, calls-call_error_cb, catch_all-throw, exception_number, exception_message,
}

-- `DATA_DROPPED` with one of the numbers of a refused message.
abbrev pub IsErrorCode : ℕ → Type 0
IsErrorCode code = (data_dropped + 1 ≤ code) × (code ≤ data_dropped + 7)

module _ (json : JsonLibrary) (code : ℕ) (t : Text) where
  open json use {Value}

  code-inspect_expiration :
      (params : Value) (name uuid router : Text)
      → inspect_expiration json params name uuid router ≡ ok (refused code t)
      → IsErrorCode code
  unfolding inspect_expiration
  code-inspect_expiration params name uuid router h = ground arith

  code-inspect_uuid :
      (params : Value) (name : Text)
      → inspect_uuid json params name ≡ ok (refused code t)
      → IsErrorCode code
  unfolding inspect_uuid
  code-inspect_uuid params name h = grind (arith, code-inspect_expiration)

  code-inspect_params :
      (params : Value) → inspect_params json params ≡ ok (refused code t) → IsErrorCode code
  unfolding inspect_params
  code-inspect_params params h = grind (arith, code-inspect_uuid)

  code-inspect_document :
      (announcement : Value)
      → inspect_document json announcement ≡ ok (refused code t)
      → IsErrorCode code
  unfolding inspect_document
  code-inspect_document announcement h = grind (arith, code-inspect_params)

  code-inspect : (message : Text) → inspect json message ≡ ok (refused code t) → IsErrorCode code
  unfolding inspect
  code-inspect message h = grind (arith, code-inspect_document)

-- What the announce callback is promised of the message.
abbrev pub IsComplete : Announcement → Type 0
IsComplete a = (is_empty a.sending_interface ≡ false) × (is_empty a.uuid ≡ false) × (0 < a.expire)

module _ (json : JsonLibrary) (a : Announcement) where
  open json use {Value}

  inspect_expiration-IsComplete :
      (params : Value) (name uuid router : Text)
      → inspect_expiration json params name uuid router ≡ ok (accepted a)
      → (a.sending_interface ≡ name) × (a.uuid ≡ uuid) × (0 < a.expire)
  unfolding inspect_expiration
  inspect_expiration-IsComplete params name uuid router h = ground arith

  inspect_uuid-IsComplete :
      (params : Value) (name : Text)
      → inspect_uuid json params name ≡ ok (accepted a)
      → (a.sending_interface ≡ name) × (is_empty a.uuid ≡ false) × (0 < a.expire)
  unfolding inspect_uuid
  inspect_uuid-IsComplete params name h = grind (arith, inspect_expiration-IsComplete)

  inspect_params-IsComplete :
      (params : Value) → inspect_params json params ≡ ok (accepted a) → IsComplete a
  unfolding inspect_params
  inspect_params-IsComplete params h = grind (arith, inspect_uuid-IsComplete)

  inspect_document-IsComplete :
      (announcement : Value) → inspect_document json announcement ≡ ok (accepted a) → IsComplete a
  unfolding inspect_document
  inspect_document-IsComplete announcement h = grind (arith, inspect_params-IsComplete)

  -- An accepted message names the sending interface and the uuid, and expires after a positive time.
  inspect-IsComplete : (message : Text) → inspect json message ≡ ok (accepted a) → IsComplete a
  unfolding inspect
  inspect-IsComplete message h = grind (arith, inspect_document-IsComplete)

-- The user hears `code` and `user_message` of a message, and nothing else.
abbrev pub Reported : DeviceMonitor → Text → DeviceMonitor → ℕ → Text → Type 0
Reported m message m' code user_message =
    IsErrorCode code
    × (m'.announcements ≡ m.announcements)
    × (m'.calls ≡ m.calls ++ told m.error_cb (error code user_message message))

call_error_cb-Reported :
    (code : ℕ) (user_message message : Text) (m : DeviceMonitor)
    → IsErrorCode code
    → Reported m message (call_error_cb code user_message message m) code user_message
call_error_cb-Reported code user_message message m h = (
  h,
  announcements-call_error_cb code user_message message m,
  calls-call_error_cb code user_message message m,
)

exception_number-IsErrorCode :
    (e : Exception) → IsErrorCode (bit_or data_dropped (exception_number e))
exception_number-IsErrorCode std_exception = omega arith
exception_number-IsErrorCode other_exception = omega arith

module _ (json : JsonLibrary) (now : ℕ) (receiving_interface message : Text)
    (m : DeviceMonitor) where
  conclude-Reported :
      (verdict : Result Verdict)
      → inspect json message ≡ verdict
      → ((a : Announcement) → verdict ≢ ok (accepted a))
      → (code : ℕ) × (user_message : Text) × Reported m message
          (conclude now receiving_interface message verdict m)
          code
          user_message
  unfolding conclude
  conclude-Reported (throw e) h other = (
    bit_or data_dropped (exception_number e),
    exception_message e,
    rw (catch_all-throw message e m)
        (call_error_cb-Reported _ _ message m (exception_number-IsErrorCode e)),
  )
  conclude-Reported (ok (refused code t)) h other =
      (code, t, call_error_cb-Reported code t message m (code-inspect json code t message h))
  conclude-Reported (ok (accepted a)) h other = absurd (other a refl)

  -- A message that is not accepted, be it refused or be it that jsoncpp throws, leaves the known
  -- announcements as they are; the error callback, if it is set, is called once, with the message and
  -- with `DATA_DROPPED` and a number from 1 to 7, and no other callback is called.
  pub process-Reported :
      ((a : Announcement) → inspect json message ≢ ok (accepted a))
      → (code : ℕ) × (user_message : Text) × Reported m message
          (process_received_announcement json now receiving_interface message m)
          code
          user_message
  unfolding process_received_announcement
  process-Reported other = conclude-Reported (inspect json message) refl other
