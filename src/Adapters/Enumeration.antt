-- ===== src/Adapters/Enumeration.antt =====
-- `NetadapterList::enumAdapters` of hbm/communication/netadapterlist.cpp, the variant that is not for
-- Windows, and the queries on the list. The map of adapters is a list of pairs in the order of the keys.
use devscan.Base.{
  ℕ, zero, suc, ◌+◌, ◌/◌, ◌%◌, ◌==◌, ltb, Bool, not, ◌&&◌, Option, none, some, List, [], ◌∷◌, ◌++◌,
  map, if◌then◌else◌,
}
use devscan.Base.Text.{Text, is_empty, text_eq}
use devscan.Result.{Result, ok, throw, std_exception}
use devscan.Adapters.Netadapter.{Netadapter, Ipv4Address, Ipv6Address, empty}
use devscan.Adapters.Hardware.{HardwareRequest, get_hardware_address}

-- `ifa_addr` and `ifa_netmask` by their family, each as bytes.
pub data InterfaceAddress : Type 0 where
  inet inet6 : Text → Text → InterfaceAddress
  other_family : InterfaceAddress

-- `struct ifaddrs`
pub record Interface : Type 0 where
  pub ifa_name : Text
  pub is_up : Bool
  pub is_broadcast : Bool
  pub is_loopback : Bool
  -- `none` where `ifa_addr` is NULL
  pub ifa_addr : Option InterfaceAddress

-- The calls of the system.
pub record System : Type 0 where
  -- `none` where `getifaddrs` fails
  pub getifaddrs : Option (List Interface)
  pub if_nametoindex : Text → ℕ
  pub inet_ntop : Text → Text
  pub inet_ntop6 : Text → Text
  pub hardware_request : Text → Option HardwareRequest

-- `std::map<unsigned int, Netadapter>`
abbrev pub Adapters : Type 0
Adapters = List (ℕ × Netadapter)

unfoldable pub find_adapter : ℕ → Adapters → Option Netadapter
find_adapter index [] = none
find_adapter index ((key, adapter) ∷ rest) =
    if key == index then some adapter else find_adapter index rest

-- `adapterMap[index]`, changed by a function; a new entry starts as the empty adapter.
unfoldable pub update_adapter : ℕ → (Netadapter → Netadapter) → Adapters → Adapters
update_adapter index f [] = (index, f empty) ∷ []
update_adapter index f ((key, adapter) ∷ rest) =
    let later = update_adapter index f rest in
    if key == index
    then (key, f adapter) ∷ rest
    else if ltb index key
    then (index, f empty) ∷ (key, adapter) ∷ rest
    else (key, adapter) ∷ later

-- The inner loop over the bits of a byte, `mask` moving up.
abbrev pub count_bits : ℕ → ℕ → ℕ
count_bits zero byte = 0
count_bits (suc bits) byte = byte % 2 + count_bits bits (byte / 2)

-- The loop over the bytes of the netmask, which ends at the first byte that is 0.
unfoldable pub prefix_of : Text → ℕ
prefix_of [] = 0
prefix_of (byte ∷ bytes) =
    let rest = prefix_of bytes in if byte == 0 then 0 else count_bits 8 byte + rest

module _ (system : System) where
  -- Done only once for each interface with a hardware address.
  abbrev pub introduce : Interface → Netadapter → Netadapter
  introduce interface adapter =
      let (mac, guid) = get_hardware_address (system.hardware_request interface.ifa_name) in
      if is_empty adapter.mac_address
      then record adapter {
        index = system.if_nametoindex interface.ifa_name;
        name = interface.ifa_name;
        mac_address = mac;
        fw_guid = guid;
      }
      else adapter

  abbrev pub add_address : InterfaceAddress → Netadapter → Netadapter
  add_address (inet address netmask) adapter =
      let entry : Ipv4Address = record {
        address = system.inet_ntop address;
        netmask = system.inet_ntop netmask;
      } in
      record adapter { ipv4_addresses = adapter.ipv4_addresses ++ entry ∷ [] }
  add_address (inet6 address netmask) adapter =
      let entry : Ipv6Address = record {
        address = system.inet_ntop6 address;
        prefix = prefix_of netmask;
      } in
      record adapter { ipv6_addresses = adapter.ipv6_addresses ++ entry ∷ [] }
  add_address other_family adapter = adapter

  abbrev pub is_listed : Interface → Bool
  is_listed interface = interface.is_up && (interface.is_broadcast && not interface.is_loopback)

  -- The body of the loop.
  unfoldable pub add_interface : Interface → Adapters → Adapters
  add_interface interface adapters = elim interface.ifa_addr [
    | none ↦ adapters
    | some address ↦
        if is_listed interface
        then update_adapter (system.if_nametoindex interface.ifa_name)
            (λ adapter. add_address address (introduce interface adapter)) adapters
        else adapters
  ]

  unfoldable pub add_interfaces : List Interface → Adapters → Adapters
  add_interfaces [] adapters = adapters
  add_interfaces (interface ∷ interfaces) adapters =
      add_interfaces interfaces (add_interface interface adapters)

  -- The adapters stay as they are where `getifaddrs` fails.
  unfoldable pub enum_adapters : Adapters → Adapters
  enum_adapters adapters = elim system.getifaddrs [
    | none ↦ adapters
    | some interfaces ↦ add_interfaces interfaces []
  ]

unfoldable pub get_array : Adapters → List Netadapter
get_array adapters = map (λ (entry : ℕ × Netadapter). entry.1) adapters

unfoldable pub get_adapter_by_name : Text → Adapters → Result Netadapter
get_adapter_by_name adapter_name [] = throw std_exception
get_adapter_by_name adapter_name ((key, adapter) ∷ rest) =
    if text_eq adapter.name adapter_name then ok adapter else get_adapter_by_name adapter_name rest

unfoldable pub get_adapter_by_interface_index : ℕ → Adapters → Result Netadapter
get_adapter_by_interface_index index adapters = elim (find_adapter index adapters) [
  | none ↦ throw std_exception
  | some adapter ↦ ok adapter
]
