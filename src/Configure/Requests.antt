-- ===== src/Configure/Requests.antt =====
-- The documents that the methods of devscanclient/lib/configureclient.cpp send, with the names of
-- devscanclient/include/devscan/defines.h and hbm/jsonrpc/jsonrpc_defines.h. The calls of jsoncpp that
-- build and write a document are parameters.
use devscan.Base.{ℕ, List, [], ◌∷◌}
use devscan.Base.Text.{Text, codes}
use devscan.DeviceMonitor.Announcement.{
  tag_params, tag_method, tag_net_settings, tag_interface, tag_name, tag_device, tag_uuid,
}

pub record JsonWriter : Type 1 where
  pub Value : Type 0
  -- `Json::Value()`
  pub null : Value
  -- `tree[key]...[key] = text`, and the same with a number
  pub assign : List Text → Text → Value → Value
  pub assign_int : List Text → ℕ → Value → Value
  -- `Json::FastWriter`, without the line feed at the end
  pub write : Value → Text

abbrev pub jsonrpc : Text
jsonrpc = codes "jsonrpc"

abbrev pub id_key : Text
id_key = codes "id"

abbrev pub result_key : Text
result_key = codes "result"

abbrev pub err_key : Text
err_key = codes "error"

abbrev pub tag_configure : Text
tag_configure = codes "configure"

abbrev pub configuration_method : Text
configuration_method = codes "configurationMethod"

abbrev pub tag_manual_address : Text
tag_manual_address = codes "manualAddress"

abbrev pub tag_manual_netmask : Text
tag_manual_netmask = codes "manualNetmask"

abbrev pub tag_ipv4 : Text
tag_ipv4 = codes "ipv4"

abbrev pub tag_ipv4_address : Text
tag_ipv4_address = codes "ipv4Address"

abbrev pub tag_default_gateway : Text
tag_default_gateway = codes "defaultGateway"

abbrev pub tag_ttl : Text
tag_ttl = codes "ttl"

-- The members below "tag_params".
abbrev pub interface_name : List Text
interface_name = tag_params ∷ tag_net_settings ∷ tag_interface ∷ tag_name ∷ []

abbrev pub interface_method : List Text
interface_method = tag_params ∷ tag_net_settings ∷ tag_interface ∷ configuration_method ∷ []

abbrev pub interface_address : List Text
interface_address =
    tag_params ∷ tag_net_settings ∷ tag_interface ∷ tag_ipv4 ∷ tag_manual_address ∷ []

abbrev pub interface_netmask : List Text
interface_netmask =
    tag_params ∷ tag_net_settings ∷ tag_interface ∷ tag_ipv4 ∷ tag_manual_netmask ∷ []

abbrev pub gateway_address : List Text
gateway_address = tag_params ∷ tag_net_settings ∷ tag_default_gateway ∷ tag_ipv4_address ∷ []

abbrev pub device_uuid : List Text
device_uuid = tag_params ∷ tag_device ∷ tag_uuid ∷ []

abbrev pub ttl_path : List Text
ttl_path = tag_params ∷ tag_ttl ∷ []

module _ (w : JsonWriter) where
  open w use {Value, null, assign, assign_int}

  -- The members that every request begins and ends with.
  abbrev pub head : Value
  head = assign (tag_method ∷ []) tag_configure (assign (jsonrpc ∷ []) (codes "2.0") null)

  abbrev pub tail : Text → ℕ → Text → Value → Value
  tail uuid ttl id tree =
      assign (id_key ∷ []) id (assign_int ttl_path ttl (assign device_uuid uuid tree))

  unfoldable pub configuration_method_tree : Text → ℕ → Text → Text → Text → Value
  configuration_method_tree id ttl uuid name method =
      tail uuid ttl id (assign interface_method method (assign interface_name name head))

  unfoldable pub configuration_tree : Text → ℕ → Text → Text → Text → Text → Text → Value
  configuration_tree id ttl uuid name method address netmask = tail uuid ttl id (
      assign interface_netmask netmask (
        assign interface_address address
          (assign interface_method method (assign interface_name name head))))

  unfoldable pub default_gateway_tree : Text → ℕ → Text → Text → Value
  default_gateway_tree id ttl uuid gateway = tail uuid ttl id (assign gateway_address gateway head)

  unfoldable pub manual_configuration_tree : Text → ℕ → Text → Text → Text → Text → Value
  manual_configuration_tree id ttl uuid name address netmask = tail uuid ttl id (
      assign interface_netmask netmask
        (assign interface_address address (assign interface_name name head)))
