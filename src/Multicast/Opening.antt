-- ===== src/Multicast/Opening.antt =====
-- What `start` leaves.
use devscan.Base.{
  ℕ, ◌≡◌, ◌≢◌, refl, sym, ◌∙◌, Bool, true, false, ◌⊎◌, Option, none, some, [], ◌∷◌, Option-cases,
  inl, inr,
}
use devscan.Base.Text.{Text}
use devscan.Base.Int.{ℤ, pos, minus_one}
use devscan.Multicast.Network.{
  Network, MulticastServer, so_rcvbuf, so_reuseaddr, ip_pktinfo, ip_multicast_loop,
}
use devscan.Multicast.Membership.{
  set_options, bound, bind_port, prepare_receive, setup_receive_socket, prepare_send,
  setup_send_socket, start, continue_start, finish_start,
}

module _ (net : Network) where
  abbrev Outcome : Type 0
  Outcome = ℤ × MulticastServer × net.State

  -- The call fails with -1, or returns 0 and leaves the server as `P` says.
  abbrev Leaves : (MulticastServer → Type 0) → Outcome → Type 0
  Leaves P out = (out.0 ≡ minus_one) ⊎ ((out.0 ≡ pos 0) × P out.1)

  -- The sending socket is open, and the rest is as it was.
  record IsSending (before m : MulticastServer) : Type 0 where
    sends : m.send_socket ≢ none
    address_is : m.address ≡ before.address
    port_is : m.port ≡ before.port

  record IsReceiving (before m : MulticastServer) : Type 0 where
    receives : m.receive_socket ≢ none
    sends_as_before : m.send_socket ≡ before.send_socket
    address_is : m.address ≡ before.address
    port_is : m.port ≡ before.port

  -- Both sockets are open, and the group, the port and the handler are those that were asked for.
  pub record IsStarted (address : Text) (port : ℕ) (has_handler : Bool) (m : MulticastServer)
      : Type 0 where
    pub receives : m.receive_socket ≢ none
    pub sends : m.send_socket ≢ none
    pub address_is : m.address ≡ address
    pub port_is : m.port ≡ port
    pub handler_is : m.has_data_handler ≡ has_handler

  bound-cases : (o : Bool × net.State) → ((bound net o).0 ≡ minus_one) ⊎ ((bound net o).0 ≡ pos 0)
  bound-cases (true, s) = inr refl
  bound-cases (false, s) = inl refl

  bind_port-cases :
      (fd : Option ℕ) (port : ℕ) (o : Bool × net.State)
      → ((bind_port net fd port o).0 ≡ minus_one) ⊎ ((bind_port net fd port o).0 ≡ pos 0)
  bind_port-cases fd port (true, s) = bound-cases (net.bind fd port s)
  bind_port-cases fd port (false, s) = inl refl

  prepare_send-Leaves :
      (m : MulticastServer) (out : Option ℕ × net.State)
      → Leaves (IsSending m) (prepare_send net m out)
  prepare_send-Leaves m (none, s) = inl refl
  prepare_send-Leaves m (some fd, s) =
      elim (bound-cases (set_options net (some fd) (ip_multicast_loop 0 ∷ []) s)) [
        | inl e ↦ inl e
        | inr e ↦ inr (e, record { sends = λ h. cc; address_is = refl; port_is = refl })
      ]

  prepare_receive-Leaves :
      (m : MulticastServer) (out : Option ℕ × net.State)
      → Leaves (IsReceiving m) (prepare_receive net m out)
  prepare_receive-Leaves m (none, s) = inl refl
  prepare_receive-Leaves m (some fd, s) =
      elim (bind_port-cases (some fd) m.port
        (set_options net (some fd) (so_rcvbuf 128000 ∷ so_reuseaddr ∷ ip_pktinfo ∷ []) s)) [
          | inl e ↦ inl e
          | inr e ↦ inr (
            e,
            record {
              receives = λ h. cc;
              sends_as_before = refl;
              address_is = refl;
              port_is = refl;
            },
          )
        ]

  setup_receive_socket-Leaves :
      (m : MulticastServer) (s : net.State) → Leaves (IsReceiving m) (setup_receive_socket net m s)
  unfolding setup_receive_socket
  setup_receive_socket-Leaves m s = elim (Option-cases (net.resolve m.address m.port)) [
    | inl e ↦ inl (rw (setup_receive_socket, e) refl)
    | inr (group, e) ↦ rw (setup_receive_socket, e) (prepare_receive-Leaves m (net.socket s))
  ]

  finish_start-Leaves :
      (has_handler : Bool) (m : MulticastServer) (out : Outcome)
      → m.send_socket ≢ none
      → Leaves (IsReceiving m) out
      → Leaves (IsStarted m.address m.port has_handler) (finish_start net has_handler out)
  finish_start-Leaves has_handler m (z, m', s) sends (inl e) = rw e (inl refl)
  finish_start-Leaves has_handler m (z, m', s) sends (inr (e, r)) = rw e (
      inr (
        refl,
        record {
          receives = r.receives;
          sends = λ h. sends (sym r.sends_as_before ∙ h);
          address_is = r.address_is;
          port_is = r.port_is;
          handler_is = refl;
        },
      ))

  continue_start-Leaves :
      (has_handler : Bool) (m : MulticastServer) (out : Outcome)
      → Leaves (IsSending m) out
      → Leaves (IsStarted m.address m.port has_handler) (continue_start net has_handler out)
  continue_start-Leaves has_handler m (z, m', s) (inl e) = rw e (inl refl)
  continue_start-Leaves has_handler m (z, m', s) (inr (e, r)) =
      let started =
        finish_start-Leaves has_handler m' (setup_receive_socket net m' s) r.sends
          (setup_receive_socket-Leaves m' s) in
      rw (e, ← r.address_is, ← r.port_is) started

  -- `start` fails with -1, or returns 0; then both sockets are open, and the group, the port and the
  -- handler are those that were asked for.
  pub start-IsStarted :
      (address : Text) (port : ℕ) (has_handler : Bool) (m : MulticastServer) (s : net.State)
      → ((start net address port has_handler m s).0 ≡ minus_one)
        ⊎ (((start net address port has_handler m s).0 ≡ pos 0)
            × IsStarted address port has_handler (start net address port has_handler m s).1)
  unfolding start setup_send_socket
  start-IsStarted address port has_handler m s =
      let asked : MulticastServer = record m { address = address; port = port } in
      continue_start-Leaves has_handler asked (setup_send_socket net asked s)
        (prepare_send-Leaves asked (net.socket s))
