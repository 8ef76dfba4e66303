-- ===== src/Receiver/Running.antt =====
-- The socket of hbm/communication/linux/netlink.cpp, and the start and the stop of the receiver of
-- devscanclient/lib/receiver.cpp.
use devscan.Base.{ℕ, ◌≡◌, refl, Bool, true, Option, none, some, List, [], ◌∷◌, if◌then◌else◌}
use devscan.Base.Int.{ℤ, is_pos}
use devscan.Base.Text.{Text, codes}
use devscan.Adapters.Enumeration.{Adapters}
use devscan.Multicast.Network.{Network, MulticastServer}
use devscan.Multicast.Membership
use devscan.Receiver.Netlink.{Notice, NetlinkMessage, process_netlink_telegram, start_notices}
use devscan.Receiver.Handlers.{net_link_event_handler}

-- `ANNOUNCE_IPV4_ADDRESS`
abbrev pub announce_ipv4_address : Text
announce_ipv4_address = codes "239.255.77.76"

abbrev pub announce_udp_port : ℕ
announce_udp_port = 31416

-- What the receiver uses beside the calls of the multicast server: the netlink socket, the timer, and the
-- event loop.
pub record Host : Type 1 where
  pub net : Network
  pub netlink_socket : net.State → Option ℕ × net.State
  pub netlink_bind : ℕ → net.State → Bool × net.State
  -- the number of bytes or -1, and the messages of the telegram
  pub netlink_recvmsg : ℕ → net.State → ℤ × List NetlinkMessage × net.State
  pub close : ℕ → net.State → ℤ × net.State
  -- period in milliseconds, whether it repeats
  pub timer_set : ℕ → Bool → net.State → net.State
  pub timer_cancel : net.State → net.State
  pub execute : net.State → net.State
  -- milliseconds
  pub execute_for : ℕ → net.State → net.State
  pub stop_loop : net.State → net.State

module _ (host : Host) where
  abbrev pub State : Type 0
  State = host.net.State

  -- `Netlink::Netlink`; `none` where it throws.
  unfoldable pub open_netlink : State → Option (ℕ × State)
  open_netlink s = elim ((host.netlink_socket s).0) [
    | none ↦ none
    | some fd ↦
        let bound = host.netlink_bind fd (host.netlink_socket s).1 in
        if bound.0 then some (fd, bound.1) else none
  ]

  -- `Netlink::process`: the calls of the event handler, and what `recvmsg` returned. Each update of the
  -- adapters is `update`.
  unfoldable pub process_netlink :
      (State → Adapters × State) → ℕ → Bool → State → ℤ × List Notice × State
  unfolding process_netlink_telegram
  process_netlink update fd has_handler s =
      let got = host.netlink_recvmsg fd s in
      let processed = process_netlink_telegram State update has_handler got.1 got.2 in
      if is_pos got.0 then (got.0, processed.0, processed.1) else (got.0, [], got.2)

  -- The members of the receiver that its start and stop change; the device monitor is not among them.
  pub record Receiver : Type 0 where
    pub scanner : MulticastServer
    pub netlink_fd : ℕ
    pub state : State

  -- The calls of the event handler that `Netlink::start` makes.
  unfoldable pub handle_notices : Adapters → MulticastServer → List Notice → State → State
  unfolding net_link_event_handler
  handle_notices adapters scanner [] s = s
  handle_notices adapters scanner (n ∷ rest) s =
      handle_notices adapters scanner rest (net_link_event_handler host.net scanner n adapters s)

  unfoldable pub start_netlink : Adapters → MulticastServer → ℕ → State → State
  unfolding handle_notices start_notices
  start_netlink adapters scanner fd s =
      host.net.add_event (some fd) (handle_notices adapters scanner (start_notices true) s)

  -- What `start` and `start_for` do before the event loop runs. What the start of the scanner returns is
  -- not looked at.
  unfoldable pub prepare : Adapters → Receiver → Receiver
  unfolding start_netlink
  prepare adapters r =
      let started =
        Membership.start host.net announce_ipv4_address announce_udp_port true r.scanner r.state in
      record r {
        scanner = started.1;
        state = start_netlink adapters started.1 r.netlink_fd (host.timer_set 1000 true started.2);
      }

  unfoldable pub start : Adapters → Receiver → Receiver
  unfolding prepare
  start adapters r =
      let ready = prepare adapters r in record ready { state = host.execute ready.state }

  unfoldable pub start_for : ℕ → Adapters → Receiver → Receiver
  unfolding prepare
  start_for time_of_execution adapters r =
      let ready = prepare adapters r in
      record ready { state = host.execute_for time_of_execution ready.state }

  unfoldable pub stop_netlink : ℕ → State → ℤ × State
  stop_netlink fd s = host.close fd (host.net.erase_event (some fd) s)

  unfoldable pub stop : Adapters → Receiver → Receiver
  unfolding stop_netlink
  stop adapters r =
      let stopped =
        Membership.stop host.net adapters r.scanner
          (stop_netlink r.netlink_fd (host.stop_loop r.state)).1 in
      record r { scanner = stopped.0; state = host.timer_cancel stopped.1 }

  -- Stopping closes both sockets of the scanner and gives up their numbers, but keeps that of the netlink
  -- socket, which it has closed: a later start registers the closed descriptor.
  stop-start :
      (adapters later : Adapters) (r : Receiver)
      → ((stop adapters r).scanner.receive_socket ≡ none)
        × ((stop adapters r).scanner.send_socket ≡ none)
        × ((started : MulticastServer) × (before : State) × ((prepare later (stop adapters r)).state
              ≡ start_netlink later started r.netlink_fd before))
  unfolding stop prepare Membership.stop
  stop-start adapters later r = (refl, refl, (_, _, refl))
