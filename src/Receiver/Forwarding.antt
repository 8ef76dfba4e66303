-- ===== src/Receiver/Forwarding.antt =====
-- From a datagram to the table of announcements.

use devscan.Base.{ℕ, ◌≡◌, ap, ◌∙◌, none, some, ◌∷◌, List}
use devscan.Base.Text.{Text, text_eq_refl}
use devscan.Base.Int.{pos}
use devscan.Result.{ok}
use devscan.Json.{JsonLibrary}
use devscan.Adapters.Netadapter.{Netadapter}
use devscan.Adapters.Enumeration.{Adapters, find_adapter, get_adapter_by_interface_index}
use devscan.Multicast.Network.{Network, MulticastServer, ControlMessage}
use devscan.Multicast.Receiving.{
  receive_telegram_name, receive_telegram_adapter, receive_telegram, telegram_of, read_control,
  last_index, read_control-last_index, or_else,
}
use devscan.DeviceMonitor.Announcement.{Announcement, accepted, inspect}
use devscan.DeviceMonitor.CommunicationPath.{key_of}
use devscan.DeviceMonitor.Table.{lookup}
use devscan.DeviceMonitor.State.{DeviceMonitor}
use devscan.DeviceMonitor.Process.{path_of}
use devscan.DeviceMonitor.Acceptance.{entry_of, lookup-process}
use devscan.Receiver.Handlers.{receive_event_handler, max_datagram_size}

module _ (net : Network) (scanner : MulticastServer) where
  -- A datagram that arrives on a known adapter and is an accepted announcement is the entry of its path
  -- from then on, with the name of that adapter as the receiving interface.
  pub receive_event_handler-lookup :
      (json : JsonLibrary) (now : ℕ) (adapters : Adapters) (monitor : DeviceMonitor)
      (s s' : net.State) (b : ℕ) (bytes : Text) (control : List ControlMessage) (index : ℕ)
      (adapter : Netadapter) (a : Announcement)
      → net.recvmsg scanner.receive_socket max_datagram_size s ≡ (some (b ∷ bytes, control), s')
      → last_index control none ≡ some index
      → find_adapter index adapters ≡ some adapter
      → inspect json (b ∷ bytes) ≡ ok (accepted a)
      → lookup
          (key_of (path_of adapter.name a))
          (receive_event_handler net scanner json now adapters monitor s).0.announcements
        ≡ some (entry_of now (b ∷ bytes) a)
  unfolding receive_event_handler receive_telegram_name receive_telegram_adapter receive_telegram
      telegram_of get_adapter_by_interface_index
  receive_event_handler-lookup json now adapters monitor s s' b bytes control index adapter a h l f
        i =
      let at_index : (read_control control 0 (pos 1)).0 ≡ index =
        read_control-last_index control none 0 (pos 1) ∙ ap (λ o. or_else o 0) l in
      rw (receive_event_handler, h, at_index, get_adapter_by_interface_index, f)
        (lookup-process json now adapter.name (b ∷ bytes) a monitor i
            (key_of (path_of adapter.name a))
          ∙ rw text_eq_refl)
