-- ===== src/DeviceMonitor/Announcement.antt =====
-- What `processReceivedAnnouncement` of devscanclient/lib/devicemonitor.cpp reads from a message, and
-- the constants of devscanclient/include/devscan/defines.h, devscanclient/include/devscan/receiver_if.h
-- and hbm/jsonrpc/jsonrpc_defines.h that it names.
use Prim.Native.Nat.{bit_or}
use devscan.Base.{ℕ, ◌==◌, none, some, if◌then◌else◌}
use devscan.Base.Text.{Text, codes, text_eq, is_empty}
use devscan.Result.{Result, ok, ◌>>=◌}
use devscan.Json.{JsonLibrary}

abbrev pub tag_announce : Text
tag_announce = codes "announce"

abbrev pub tag_expiration : Text
tag_expiration = codes "expiration"

abbrev pub tag_net_settings : Text
tag_net_settings = codes "netSettings"

abbrev pub tag_interface : Text
tag_interface = codes "interface"

abbrev pub tag_name : Text
tag_name = codes "name"

abbrev pub tag_device : Text
tag_device = codes "device"

abbrev pub tag_router : Text
tag_router = codes "router"

abbrev pub tag_uuid : Text
tag_uuid = codes "uuid"

abbrev pub tag_method : Text
tag_method = codes "method"

abbrev pub tag_params : Text
tag_params = codes "params"

-- `cb_t`, the numbers that say why a message was refused.
abbrev pub data_dropped : ℕ
data_dropped = 0x80000000

abbrev pub error_parse : ℕ
error_parse = 1

abbrev pub error_method : ℕ
error_method = 2

abbrev pub error_ipaddr : ℕ
error_ipaddr = 3

abbrev pub error_uuid : ℕ
error_uuid = 4

abbrev pub error_expire : ℕ
error_expire = 5

abbrev pub e_exception1 : ℕ
e_exception1 = 6

abbrev pub e_exception2 : ℕ
e_exception2 = 7

pub record Announcement : Type 0 where
  pub sending_interface : Text
  pub uuid : Text
  pub router : Text
  -- in seconds
  pub expire : ℕ

-- The message is refused with an error code and a text for the user, or accepted.
pub data Verdict : Type 0 where
  refused : ℕ → Text → Verdict
  accepted : Announcement → Verdict

abbrev pub dropped : ℕ → Text → Result Verdict
dropped code user_message = ok (refused (bit_or data_dropped code) user_message)

module _ (json : JsonLibrary) where
  open json use {Value, parse, index, member, as_string, as_uint}

  -- `params[TAG_NetSettings][TAG_Interface][TAG_Name].asString()`
  unfoldable pub sending_name : Value → Result Text
  sending_name params = do
    net_settings ← member params tag_net_settings
    interface ← member net_settings tag_interface
    name ← member interface tag_name
    as_string name

  -- `params[tag][TAG_Uuid].asString()`
  unfoldable pub uuid_of : Text → Value → Result Text
  uuid_of tag params = do node ← member params tag; uuid ← member node tag_uuid; as_string uuid

  -- From the expiration on.
  unfoldable pub inspect_expiration : Value → Text → Text → Text → Result Verdict
  inspect_expiration params name uuid router = do
    expiration ← member params tag_expiration
    expire ← as_uint expiration
    if expire == 0
        then dropped error_expire (codes "Missing expiration in JSON-document")
        else ok (
            accepted
              (record { sending_interface = name; uuid = uuid; router = router; expire = expire }))

  -- From the uuid on.
  unfoldable pub inspect_uuid : Value → Text → Result Verdict
  unfolding uuid_of inspect_expiration
  inspect_uuid params name = do
    uuid ← uuid_of tag_device params
    if is_empty uuid
        then dropped error_uuid (codes "Missing uuid in JSON-document")
        else do router ← uuid_of tag_router params; inspect_expiration params name uuid router

  unfoldable pub inspect_params : Value → Result Verdict
  unfolding sending_name inspect_uuid
  inspect_params params = do
    name ← sending_name params
    if is_empty name
        then dropped error_ipaddr (codes "Missing interface name in JSON-document")
        else inspect_uuid params name

  unfoldable pub inspect_document : Value → Result Verdict
  unfolding inspect_params
  inspect_document announcement = do
    (document, method) ← index announcement tag_method
    name ← as_string method
    if text_eq name tag_announce
        then (do (_, params) ← index document tag_params; inspect_params params)
        else dropped error_method (codes "Missing \"announcement\" in JSON-document")

  -- The checks inside the `try` block, in the order of the source.
  unfoldable pub inspect : Text → Result Verdict
  unfolding inspect_document
  inspect message = do
    parsed ← parse message
    elim parsed [
      | none ↦ dropped error_parse (codes "JSON parser failed")
      | some announcement ↦ inspect_document announcement
    ]
