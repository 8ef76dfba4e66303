-- ===== src/Adapters/Netadapter.antt =====
-- hbm/communication/netadapter.cpp and netadapter.h. `inet_aton` is a parameter: the address as a
-- number of 32 bits, the first byte the highest.
use devscan.Base.{
  ℕ, ◌/◌, ◌%◌, ◌^◌, ◌==◌, leb, Bool, true, false, ◌||◌, Option, none, some, List, [], if◌then◌else◌,
}
use devscan.Base.Text.{Text, codes, find}

pub record Ipv4Address : Type 0 where
  pub address : Text
  pub netmask : Text

pub record Ipv6Address : Type 0 where
  pub address : Text
  pub prefix : ℕ

pub record Netadapter : Type 0 where
  pub name : Text
  pub ipv4_addresses : List Ipv4Address
  pub ipv6_addresses : List Ipv6Address
  pub mac_address : Text
  pub fw_guid : ℕ
  pub index : ℕ

abbrev pub empty : Netadapter
empty = record {
  name = [];
  ipv4_addresses = [];
  ipv6_addresses = [];
  mac_address = [];
  fw_guid = 0;
  index = 0;
}

abbrev is_start : Option ℕ → Bool
is_start none = false
is_start (some position) = position == 0

unfoldable pub is_apipa_address : Text → Bool
is_apipa_address address = is_start (find address (codes "169.254") 0)

-- The ranges that are reserved, by the highest byte.
abbrev pub is_reserved : ℕ → Bool
is_reserved upper_most =
    if upper_most == 0
    then true
    else if (upper_most == 24) || (upper_most == 25) || (upper_most == 26)
    then true
    else if upper_most == 127
    then true
    else leb 224 upper_most

module _ (inet_aton : Text → Option ℕ) where
  unfoldable pub is_valid_manual_ip_v4_address : Text → Bool
  unfolding is_apipa_address
  is_valid_manual_ip_v4_address ip = elim (inet_aton ip) [
    | none ↦ false
    | some big_address ↦
        if is_reserved (big_address / 2 ^ 24 % 2 ^ 8)
        then false
        else if is_apipa_address ip
        then false
        else true
  ]

  unfoldable pub is_valid_ip_v4_netmask : Text → Bool
  is_valid_ip_v4_netmask ip = elim (inet_aton ip) [
    | none ↦ false
    | some big_address ↦
        if big_address == 0 then false else if big_address == 0xffffffff then false else true
  ]
