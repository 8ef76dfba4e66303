-- ===== src/Adapters/Hardware.antt =====
-- `getHardwareAddress` of hbm/communication/netadapterlist.cpp, the variant that is not for Windows.
use Prim.Native.Nat.{bit_or}
use devscan.Base.{
  ℕ, ◌+◌, ◌*◌, ◌/◌, ◌%◌, ◌^◌, ◌-◌, ltb, leb, Bool, Option, none, some, List, [], ◌∷◌, ◌++◌, take,
  if◌then◌else◌,
}
use devscan.Base.Text.{Text}

-- The kinds of hardware that the source tells apart.
pub data HardwareFamily : Type 0 where
  arphrd_ether arphrd_ieee1394 other_hardware : HardwareFamily

-- What is behind `ifr` once `ioctl` has returned.
pub record HardwareRequest : Type 0 where
  -- whether `ioctl` returned 1
  pub returned_one : Bool
  pub family : HardwareFamily
  -- `sa_data` and what is behind it, as bytes
  pub data_bytes : Text

abbrev digit : ℕ → ℕ
digit n = if ltb n 10 then b'0' + n else b'A' + (n - 10)

-- `std::uppercase << std::setfill('0') << std::setw(2) << std::hex`
abbrev pub hex_byte : ℕ → Text
hex_byte byte = digit (byte / 16 % 16) ∷ digit (byte % 16) ∷ []

-- The bytes with colons between them.
abbrev pub hex_bytes : List ℕ → Text
hex_bytes [] = []
hex_bytes (byte ∷ []) = hex_byte byte
hex_bytes (byte ∷ bytes) = hex_byte byte ++ (b':' ∷ hex_bytes bytes)

-- A `char` that is taken as a `uint64_t`: its sign fills the upper bytes.
abbrev pub sign_extend : ℕ → ℕ
sign_extend byte = if leb 128 byte then 2 ^ 64 - 256 + byte else byte

-- `fwGuid = fwGuid << 8; fwGuid |= ifr.ifr_hwaddr.sa_data[i]` over the bytes.
unfoldable pub guid_of : ℕ → List ℕ → ℕ
guid_of fw_guid [] = fw_guid
guid_of fw_guid (byte ∷ bytes) =
    guid_of (bit_or (fw_guid * 2 ^ 8 % 2 ^ 64) (sign_extend byte)) bytes

-- The switch over the family: the address as text, and the GUID.
unfoldable pub hardware_of : HardwareRequest → Text × ℕ
unfolding guid_of
hardware_of ifr = elim ifr.family [
  | arphrd_ether ↦ (hex_bytes (take 6 ifr.data_bytes), 0)
  | arphrd_ieee1394 ↦ (hex_bytes (take 16 ifr.data_bytes), guid_of 0 (take 8 ifr.data_bytes))
  | other_hardware ↦ ([], 0)
]

-- `none` stands for a socket that could not be made.
unfoldable pub get_hardware_address : Option HardwareRequest → Text × ℕ
unfolding hardware_of
get_hardware_address none = ([], 0)
get_hardware_address (some ifr) = if ifr.returned_one then ([], 0) else hardware_of ifr
