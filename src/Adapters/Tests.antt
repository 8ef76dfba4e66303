-- ===== src/Adapters/Tests.antt =====
-- Runs of the adapter list on a small host: one adapter with two addresses, and a loopback.
use devscan.Base.{
  Bool, ℕ, ◌+◌, ◌*◌, ◌^◌, ◌≡◌, refl, true, false, ◌⊎◌, Option, some, List, [], ◌∷◌, if◌then◌else◌,
}
use devscan.Base.Text.{Text, codes, text_eq, find, find_first}
use devscan.Result.{ok, throw, std_exception}
use devscan.Adapters.Netadapter.{Netadapter, empty, is_valid_manual_ip_v4_address, is_apipa_address}
use devscan.Adapters.Hardware.{arphrd_ether}
use devscan.Adapters.Enumeration.{
  Interface, inet, inet6, System, enum_adapters, get_adapter_by_interface_index,
}
use devscan.Adapters.Described.{IsDescribed, is_present}
use devscan.Adapters.Listing.{enum_adapters-IsDescribed}
use devscan.Base.Int.{ℤ, pos, minus_one}
use devscan.Adapters.Gateway.{Route, RouteFile}

abbrev eth0 : Text
eth0 = codes "eth0"

abbrev interfaces : List Interface
interfaces =
    record {
      ifa_name = eth0;
      is_up = true;
      is_broadcast = true;
      is_loopback = false;
      ifa_addr = some (inet (codes "a") (codes "m"));
    }
    ∷ record {
      ifa_name = codes "lo";
      is_up = true;
      is_broadcast = false;
      is_loopback = true;
      ifa_addr = some (inet (codes "b") (codes "m"));
    }
    ∷ record {
      ifa_name = eth0;
      is_up = true;
      is_broadcast = true;
      is_loopback = false;
      ifa_addr = some (inet6 (codes "c") (255 ∷ 240 ∷ 0 ∷ []));
    }
    ∷ []

abbrev host : System
host = record {
  getifaddrs = some interfaces;
  if_nametoindex = λ name. if text_eq name eth0 then 2 else 1;
  inet_ntop = λ bytes. bytes;
  inet_ntop6 = λ bytes. bytes;
  hardware_request = λ name. some (record {
    returned_one = false;
    family = arphrd_ether;
    data_bytes = 0 ∷ 9 ∷ 229 ∷ 0 ∷ 1 ∷ 2 ∷ [];
  });
}

enum_adapters-IsDescribed_example :
    ((is_present host 2 interfaces ≡ false)
      × (get_adapter_by_interface_index 2 (enum_adapters host []) ≡ throw std_exception))
    ⊎ ((is_present host 2 interfaces ≡ true)
        × (adapter : Netadapter) × (get_adapter_by_interface_index 2 (enum_adapters host [])
            ≡ ok adapter)
        × IsDescribed host 2 interfaces empty adapter)
enum_adapters-IsDescribed_example = enum_adapters-IsDescribed host interfaces [] 2 refl

-- 10.0.0.1
abbrev ten : Text → Option ℕ
ten ip = some (10 * 2 ^ 24 + 1)

ten-valid : is_valid_manual_ip_v4_address ten (codes "10.0.0.1") ≡ true
unfolding is_valid_manual_ip_v4_address is_apipa_address find find_first
ten-valid = refl

-- A routing table as the list of its lines. The end of the file is met with the last one.
abbrev line_scan : Route → List Route → ℤ × Route × Bool × List Route
line_scan before [] = (minus_one, before, true, [])
line_scan before (route ∷ []) = (pos 11, route, true, [])
line_scan before (route ∷ next ∷ rest) = (pos 11, route, false, next ∷ rest)

abbrev unset : Route
unset = record { destination = 5; gateway = 5; flags = 0 }

abbrev routes : List Route
routes = unset ∷ record { destination = 0; gateway = 7; flags = 3 } ∷ []

abbrev table : RouteFile
table = record {
  File = List Route;
  fopen = some routes;
  skip_line = λ fp. (pos 0, fp);
  fscanf = line_scan;
  inet_ntoa = λ n. n ∷ [];
}

-- A line that no number stands in.
abbrev broken : RouteFile
broken = record table { fscanf = λ route fp. (pos 0, route, false, fp) }
