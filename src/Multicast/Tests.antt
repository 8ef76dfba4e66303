-- ===== src/Multicast/Tests.antt =====
-- Runs of the multicast server on a small network that keeps the datagrams that were sent.
use devscan.Base.{ℕ, ◌≡◌, ◌↔◌, true, ◌⊎◌, none, some, List, [], ◌∷◌, length, All}
use devscan.Base.Text.{Text, codes}
use devscan.Base.Int.{ℤ, pos, minus_one}
use devscan.Adapters.Netadapter.{Netadapter, empty}
use devscan.Adapters.Enumeration.{Adapters}
use devscan.Multicast.Network.{
  Network, MulticastServer, new_server, ip_pktinfo_message, ip_ttl_message, err_success,
}
use devscan.Multicast.Membership.{start}
use devscan.Multicast.Opening.{IsStarted, start-IsStarted}
use devscan.Multicast.Sending.{send, send_over_interface_by_address, send_text_by_address}
use devscan.Multicast.Outcome.{outcomes, after_all, send-outcomes}
use devscan.Multicast.Sent.{IsSent, send_over_interface_by_address-IsSent}

abbrev pub net : Network
net = record {
  State = List Text;
  resolve = λ name port. some 1;
  inet_aton = λ name. some 2;
  socket = λ s. (some 3, s);
  setsockopt = λ fd option s. (none, s);
  bind = λ fd port s. (true, s);
  sendto = λ fd group port text s. (pos (length text), text ∷ s);
  recvmsg = λ fd len s. (some (codes "hi", ip_ttl_message (pos 4) ∷ ip_pktinfo_message 2 ∷ []), s);
  close = λ fd s. s;
  shutdown = λ fd s. s;
  add_event = λ fd s. s;
  erase_event = λ fd s. s;
}

abbrev pub server : MulticastServer
server = record new_server {
  address = codes "239.255.77.76";
  port = 31416;
  receive_socket = some 3;
  send_socket = some 4;
}

abbrev pub eth0 : Netadapter
eth0 = record empty {
  name = codes "eth0";
  index = 2;
  ipv4_addresses = record { address = codes "10.0.0.1"; netmask = codes "255.0.0.0" } ∷ [];
}

-- The second adapter has no address.
abbrev pub adapters : Adapters
adapters = (2, eth0) ∷ (3, record empty { index = 3 }) ∷ []

send-outcomes_example :
    (((send net server adapters (some (codes "hi")) 2 1 []).0 ≡ pos 0)
      ↔ All (λ (z : ℤ). z ≡ pos 0) (outcomes net server adapters (some (codes "hi")) 2 1 []))
    × ((send net server adapters (some (codes "hi")) 2 1 []).1
        ≡ after_all net server adapters (some (codes "hi")) 2 1 [])
send-outcomes_example = send-outcomes net server adapters (some (codes "hi")) 2 1 []

abbrev two : ℕ
two = 2

abbrev no_bytes : Text
no_bytes = []

send_over_interface_by_address-IsSent_example :
    (((send_over_interface_by_address net server (codes "10.0.0.1") (some (codes "hi")) 2 1 []).0
        ≡ err_success)
      ↔ (((some (codes "hi") ≡ none)
            × (two ≡ 0)
            × ((send_over_interface_by_address net server
                  (codes "10.0.0.1")
                  (some (codes "hi"))
                  2
                  1
                  []).1
                ≡ []))
          ⊎ ((t : Text) × (some (codes "hi") ≡ some t)
              × IsSent net server (codes "10.0.0.1") t 1 [])))
    × (((send_text_by_address net server (codes "10.0.0.1") [] 1 []).0 ≡ err_success) ↔ (
        ((no_bytes ≡ []) × ((send_text_by_address net server (codes "10.0.0.1") [] 1 []).1 ≡ []))
        ⊎ IsSent net server (codes "10.0.0.1") [] 1 []))
send_over_interface_by_address-IsSent_example =
    send_over_interface_by_address-IsSent net server (codes "10.0.0.1") (some (codes "hi")) [] 2 1
      []

start-IsStarted_example :
    ((start net (codes "239.255.77.76") 31416 true new_server []).0 ≡ minus_one)
    ⊎ (((start net (codes "239.255.77.76") 31416 true new_server []).0 ≡ pos 0)
        × IsStarted net
            (codes "239.255.77.76")
            31416
            true
            (start net (codes "239.255.77.76") 31416 true new_server []).1)
start-IsStarted_example = start-IsStarted net (codes "239.255.77.76") 31416 true new_server []
