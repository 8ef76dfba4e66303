-- ===== src/Multicast/Membership.antt =====
-- The sockets of the multicast server, the groups it joins, its start and its stop.
use devscan.Base.{ℕ, Bool, true, false, Option, none, some, List, [], ◌∷◌, if◌then◌else◌}
use devscan.Base.Text.{Text}
use devscan.Base.Int.{ℤ, pos, minus_one, is_neg}
use devscan.Adapters.Enumeration.{Adapters}
use devscan.Multicast.Network.{
  Network, MulticastServer, OptionErrno, addr_in_use, addr_not_avail, SocketOption, so_rcvbuf,
  so_reuseaddr, ip_pktinfo, ip_multicast_loop, ip_add_membership, ip_drop_membership,
}

module _ (net : Network) where
  -- The options of the receiving socket, each of which ends the set-up where it fails.
  abbrev pub set_options : Option ℕ → List SocketOption → net.State → Bool × net.State
  set_options fd [] s = (true, s)
  set_options fd (option ∷ options) s = elim (net.setsockopt fd option s).0 [
    | none ↦ set_options fd options (net.setsockopt fd option s).1
    | some e ↦ (false, (net.setsockopt fd option s).1)
  ]

  abbrev pub bound : Bool × net.State → ℤ × net.State
  bound (true, s) = (pos 0, s)
  bound (false, s) = (minus_one, s)

  abbrev pub bind_port : Option ℕ → ℕ → Bool × net.State → ℤ × net.State
  bind_port fd port (false, s) = (minus_one, s)
  bind_port fd port (true, s) = bound (net.bind fd port s)

  abbrev pub prepare_receive :
      MulticastServer → Option ℕ × net.State → ℤ × MulticastServer × net.State
  prepare_receive m (none, s) = (minus_one, record m { receive_socket = none }, s)
  prepare_receive m (some fd, s) =
      let (result, s') =
        bind_port (some fd) m.port
          (set_options (some fd) (so_rcvbuf 128000 ∷ so_reuseaddr ∷ ip_pktinfo ∷ []) s) in
      (result, record m { receive_socket = some fd }, s')

  unfoldable pub setup_receive_socket :
      MulticastServer → net.State → ℤ × MulticastServer × net.State
  setup_receive_socket m s = elim (net.resolve m.address m.port) [
    | none ↦ (minus_one, m, s)
    | some group ↦ prepare_receive m (net.socket s)
  ]

  abbrev pub prepare_send : MulticastServer → Option ℕ × net.State → ℤ × MulticastServer × net.State
  prepare_send m (none, s) = (minus_one, record m { send_socket = none }, s)
  prepare_send m (some fd, s) =
      let (result, s') = bound (set_options (some fd) (ip_multicast_loop 0 ∷ []) s) in
      (result, record m { send_socket = some fd }, s')

  unfoldable pub setup_send_socket : MulticastServer → net.State → ℤ × MulticastServer × net.State
  setup_send_socket m s = prepare_send m (net.socket s)

  -- What a membership that could not be changed means: it may be so already.
  abbrev pub membership_result : Bool → Option OptionErrno → ℤ
  membership_result add none = pos 0
  membership_result true (some addr_in_use) = pos 0
  membership_result false (some addr_not_avail) = pos 0
  membership_result add (some e) = minus_one

  unfoldable pub drop_or_add_interface : Text → Bool → MulticastServer → net.State → ℤ × net.State
  drop_or_add_interface interface_address add m s = elim (net.resolve m.address m.port) [
    | none ↦ (minus_one, s)
    | some group ↦ elim (net.inet_aton interface_address) [
      | none ↦ (minus_one, s)
      | some interface ↦
          let option =
            if add then ip_add_membership group interface else ip_drop_membership group interface in
          let (failed, s') = net.setsockopt m.receive_socket option s in
          (membership_result add failed, s')
    ]
  ]

  unfoldable pub add_interface : Text → MulticastServer → net.State → ℤ × net.State
  unfolding drop_or_add_interface
  add_interface interface_address m s = drop_or_add_interface interface_address true m s

  unfoldable pub drop_interface : Text → MulticastServer → net.State → ℤ × net.State
  unfolding drop_or_add_interface
  drop_interface interface_address m s = drop_or_add_interface interface_address false m s

  -- The loop over the adapters, by their first address; the results are not looked at.
  unfoldable pub change_all : Bool → Adapters → MulticastServer → net.State → net.State
  unfolding add_interface drop_interface
  change_all add [] m s = s
  change_all add ((index, adapter) ∷ adapters) m s = elim adapter.ipv4_addresses [
    | [] ↦ change_all add adapters m s
    | a ∷ rest ↦
        change_all add adapters m
          (if add then (add_interface a.address m s).1 else (drop_interface a.address m s).1)
  ]

  unfoldable pub add_all_interfaces : Adapters → MulticastServer → net.State → net.State
  unfolding change_all
  add_all_interfaces adapters m s = change_all true adapters m s

  unfoldable pub drop_all_interfaces : Adapters → MulticastServer → net.State → net.State
  unfolding change_all
  drop_all_interfaces adapters m s = change_all false adapters m s

  abbrev pub finish_start : Bool → ℤ × MulticastServer × net.State → ℤ × MulticastServer × net.State
  finish_start has_handler (err, m, s) = if is_neg err then (err, m, s) else (
    pos 0,
    record m { has_data_handler = has_handler },
    (if has_handler then net.add_event m.receive_socket s else s),
  )

  abbrev pub continue_start :
      Bool → ℤ × MulticastServer × net.State → ℤ × MulticastServer × net.State
  continue_start has_handler (err, m, s) =
      if is_neg err then (err, m, s) else finish_start has_handler (setup_receive_socket m s)

  unfoldable pub start :
      Text → ℕ → Bool → MulticastServer → net.State → ℤ × MulticastServer × net.State
  unfolding setup_send_socket setup_receive_socket
  start address port has_handler m s =
      continue_start has_handler (setup_send_socket (record m { address = address; port = port }) s)

  abbrev close_send : Option ℕ → net.State → net.State
  close_send none s = s
  close_send (some fd) s = net.close fd s

  abbrev close_receive : Option ℕ → net.State → net.State
  close_receive none s = s
  close_receive (some fd) s = net.close fd (net.shutdown fd s)

  unfoldable pub stop : Adapters → MulticastServer → net.State → MulticastServer × net.State
  unfolding drop_all_interfaces
  stop adapters m s =
      let dropped = net.erase_event m.receive_socket (drop_all_interfaces adapters m s) in
      (
        record m { send_socket = none; receive_socket = none },
        close_receive m.receive_socket (close_send m.send_socket dropped),
      )
