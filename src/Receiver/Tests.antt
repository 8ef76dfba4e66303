-- ===== src/Receiver/Tests.antt =====
-- Runs of the receiver: the message of the tests of the device monitor arrives on the adapter eth0 of
-- those of the multicast server.
use devscan.Base.{◌≡◌, refl, true, some, List, [], ◌∷◌, All}
use devscan.Base.Text.{codes}
use devscan.DeviceMonitor.CommunicationPath.{key_of}
use devscan.DeviceMonitor.Table.{lookup}
use devscan.DeviceMonitor.State.{empty}
use devscan.DeviceMonitor.Process.{path_of}
use devscan.DeviceMonitor.Acceptance.{entry_of}
use devscan.DeviceMonitor.Tests.{json, hello, said, hello-accepted}
use devscan.Adapters.Enumeration.{find_adapter}
use devscan.Multicast.Network.{Network, ip_pktinfo_message}
use devscan.Multicast.Tests.{net, server, adapters, eth0}
use devscan.Receiver.Netlink.{
  NetlinkMessage, rtm_deladdr, process_netlink_telegram, IsNew, process_netlink_telegram-IsNew,
}
use devscan.Receiver.Handlers.{receive_event_handler}
use devscan.Receiver.Forwarding.{receive_event_handler-lookup}

abbrev hello_net : Network
hello_net = record net { recvmsg = λ fd len s. (some (hello, ip_pktinfo_message 2 ∷ []), s) }

eth0-found : find_adapter 2 adapters ≡ some eth0
unfolding find_adapter
eth0-found = refl

receive_event_handler-lookup_example :
    lookup
      (key_of (path_of (codes "eth0") said))
      (receive_event_handler hello_net server json 1 adapters empty []).0.announcements
    ≡ some (entry_of 1 hello said)
receive_event_handler-lookup_example =
    receive_event_handler-lookup hello_net server json 1 adapters empty [] [] b'h' (codes "ello")
      (ip_pktinfo_message 2 ∷ []) 2 eth0 said refl refl eth0-found hello-accepted

-- The last address of the adapter with the index 3 is gone.
abbrev gone : List NetlinkMessage
gone = rtm_deladdr true 3 (codes "10.0.0.2" ∷ []) ∷ []

process_netlink_telegram-IsNew_example :
    All IsNew (process_netlink_telegram (Unit {0}) (λ u. (adapters, u)) true gone tt).0
process_netlink_telegram-IsNew_example =
    process_netlink_telegram-IsNew (Unit {0}) (λ u. (adapters, u)) true gone tt
