-- ===== src/Receiver/Handlers.antt =====
-- The two event handlers of devscanclient/lib/receiver.cpp.

use devscan.Base.{ℕ, Option, none, some, [], if◌then◌else◌}
use devscan.Base.Text.{Text}
use devscan.Base.Int.{is_pos}
use devscan.Result.{Result, ok, throw}
use devscan.Json.{JsonLibrary}
use devscan.Adapters.Netadapter.{Netadapter}
use devscan.Adapters.Enumeration.{Adapters, get_adapter_by_interface_index}
use devscan.Multicast.Network.{Network, MulticastServer}
use devscan.Multicast.Membership.{
  add_interface, drop_interface, add_all_interfaces, drop_all_interfaces,
}
use devscan.Multicast.Receiving.{receive_telegram_name}
use devscan.DeviceMonitor.State.{DeviceMonitor}
use devscan.DeviceMonitor.Process.{process_received_announcement}
use devscan.Receiver.Netlink.{NetlinkEvent, new, del, complete, Notice}

-- `MAX_DATAGRAM_SIZE`
abbrev pub max_datagram_size : ℕ
max_datagram_size = 65536

abbrev pub name_or_empty : Option Text → Text
name_or_empty none = []
name_or_empty (some name) = name

module _ (net : Network) (scanner : MulticastServer) where
  unfoldable pub receive_event_handler :
      JsonLibrary → ℕ → Adapters → DeviceMonitor → net.State → DeviceMonitor × net.State
  receive_event_handler json now adapters monitor s =
      let (t, adapter_name, s') = receive_telegram_name net scanner adapters max_datagram_size s in
      if is_pos t.nbytes
      then (
        process_received_announcement json now (name_or_empty adapter_name) t.data_bytes monitor,
        s',
      )
      else (monitor, s')

  abbrev join_known : Text → Result Netadapter → net.State → net.State
  join_known address (throw e) s = s
  join_known address (ok adapter) s = (add_interface net address scanner s).1

  abbrev join_anew : Adapters → net.State → net.State
  join_anew adapters s =
      add_all_interfaces net adapters scanner (drop_all_interfaces net adapters scanner s)

  -- The case for DEL has no `break`: that for COMPLETE follows.
  unfoldable pub on_event : NetlinkEvent → ℕ → Text → Adapters → net.State → net.State
  on_event new index address adapters s =
      join_known address (get_adapter_by_interface_index index adapters) s
  on_event del index address adapters s =
      join_anew adapters (drop_interface net address scanner s).1
  on_event complete index address adapters s = join_anew adapters s

  unfoldable pub net_link_event_handler : Notice → Adapters → net.State → net.State
  unfolding on_event
  net_link_event_handler n adapters s = on_event n.event n.adapter_index n.ipv4_address adapters s
