-- ===== src/Adapters/Query.antt =====
-- The query for a name, and the test on addresses that are set by hand.
use devscan.Base.{
  ℕ, ◌*◌, ◌/◌, ◌%◌, ◌^◌, ◌≤◌, ◌<◌, ◌≡◌, ◌≢◌, refl, true, false, ◌⊎◌, Option, some, List, [], ◌∷◌,
  All, arith, Bool-cases, inl, inr,
}
use devscan.Base.Text.{Text, text_eq, text_eq_iff}
use devscan.Result.{ok, throw, std_exception}
use devscan.Adapters.Netadapter.{
  Netadapter, is_valid_manual_ip_v4_address, is_apipa_address, is_reserved,
}
use devscan.Adapters.Enumeration.{Adapters, get_array, get_adapter_by_name}

-- The first adapter of a list that has a property: those before lack it.
abbrev pub IsFirst : Text → Netadapter → List Netadapter → Type 0
IsFirst name adapter [] = ⊥
IsFirst name adapter (a ∷ rest) =
    ((a ≡ adapter) × (a.name ≡ name)) ⊎ ((a.name ≢ name) × IsFirst name adapter rest)

-- A query for a name throws exactly if no adapter has the name, and else returns the first of
-- `getArray` that has it.
get_adapter_by_name-IsFirst :
    (name : Text) (adapters : Adapters)
    → ((get_adapter_by_name name adapters ≡ throw std_exception)
        × All (λ (a : Netadapter). a.name ≢ name) (get_array adapters))
      ⊎ ((adapter : Netadapter) × (get_adapter_by_name name adapters ≡ ok adapter)
          × IsFirst name adapter (get_array adapters))
unfolding get_adapter_by_name get_array
get_adapter_by_name-IsFirst name [] = inl (refl, tt)
get_adapter_by_name-IsFirst name ((key, a) ∷ rest) = elim (Bool-cases (text_eq a.name name)) [
  | inl same ↦ inr (a, rw same refl, inl (refl, (text_eq_iff a.name name).0 same))
  | inr other ↦
      let differs : a.name ≢ name = λ h. let e = (text_eq_iff a.name name).1 h in cc in
      elim (get_adapter_by_name-IsFirst name rest) [
        | inl (thrown, none_has) ↦ inl (rw other thrown, (differs, none_has))
        | inr (b, found, first) ↦ inr (b, rw other found, inr (differs, first))
      ]
]

-- The numbers of an address that may be set by hand: its highest byte is from 1 to 223, and none of 24,
-- 25, 26 and 127.
pub record IsOpen (address : ℕ) : Type 0 where
  pub low : 2 ^ 24 ≤ address
  pub high : address < 224 * 2 ^ 24
  pub no_firewire : (address < 24 * 2 ^ 24) ⊎ (27 * 2 ^ 24 ≤ address)
  pub no_loopback : (address < 127 * 2 ^ 24) ⊎ (128 * 2 ^ 24 ≤ address)

not_reserved :
    (byte : ℕ)
    → is_reserved byte ≡ false
    → (1 ≤ byte) × (byte < 224) × ((byte < 24) ⊎ (27 ≤ byte)) × ((byte < 127) ⊎ (128 ≤ byte))
not_reserved byte h = ground arith

IsOpen-of_byte :
    (address byte : ℕ)
    → byte ≡ address / 2 ^ 24 % 2 ^ 8
    → address < 2 ^ 32
    → is_reserved byte ≡ false
    → IsOpen address
IsOpen-of_byte address byte e b h =
    let (low, high, firewire, loopback) = not_reserved byte h in
    record {
      low = omega (arith, e, b, low);
      high = omega (arith, e, b, high);
      no_firewire = elim firewire [
        | inl l ↦ inl (omega (arith, e, b, l))
        | inr r ↦ inr (omega (arith, e, b, r))
      ];
      no_loopback = elim loopback [
        | inl l ↦ inl (omega (arith, e, b, l))
        | inr r ↦ inr (omega (arith, e, b, r))
      ];
    }

-- An address of 32 bits that may be set by hand is in the open ranges, and its text does not start
-- with that of the automatic addresses.
is_valid_manual_ip_v4_address-IsOpen :
    (inet_aton : Text → Option ℕ) (ip : Text) (address : ℕ)
    → inet_aton ip ≡ some address
    → address < 2 ^ 32
    → is_valid_manual_ip_v4_address inet_aton ip ≡ true
    → IsOpen address × (is_apipa_address ip ≡ false)
unfolding is_valid_manual_ip_v4_address
is_valid_manual_ip_v4_address-IsOpen inet_aton ip address e b h =
    let h' = rw (is_valid_manual_ip_v4_address, e) at h in
    elim (Bool-cases (is_reserved (address / 2 ^ 24 % 2 ^ 8))) [
      | inl reserved ↦ let h2 : false ≡ true = rw reserved at h' in cc
      | inr free ↦ elim (Bool-cases (is_apipa_address ip)) [
        | inl apipa ↦ let h2 : false ≡ true = rw (free, apipa) at h' in cc
        | inr other ↦ (IsOpen-of_byte address (address / 2 ^ 24 % 2 ^ 8) refl b free, other)
      ]
    ]
