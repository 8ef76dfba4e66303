-- ===== src/Multicast/Sent.antt =====
-- What success means of the variants of `sendOverInterfaceByAddress`.
use mathlib.Core.Option.{some-injective}
use mathlib.Core.Path.{subst}
use devscan.Base.{
  ℕ, zero, suc, ◌≡◌, ◌↔◌, sym, refl, true, Option, none, some, [], ◌∷◌, length, arith, Option-cases,
  inl, inr, ◌⊎◌, ltb,
}
use devscan.Base.Text.{Text}
use devscan.Base.Int.{ℤ, pos, negsuc}
use devscan.Multicast.Network.{
  Network, MulticastServer, OptionErrno, ip_multicast_if, ip_multicast_ttl, err_success,
}
use devscan.Multicast.Sending.{
  send_by_address, send_over_interface_by_address, send_text_by_address, send_datagram, behind_ttl,
  behind_if, sent_all,
}

module _ (net : Network) (m : MulticastServer) where
  -- How a datagram was sent: over the interface and to the group that the texts name, with the options
  -- set before, and whole.
  pub record IsSent (interface_ip text : Text) (ttl : ℕ) (s : net.State) : Type 0 where
    pub interface : ℕ
    pub group : ℕ
    pub interface_named : net.inet_aton interface_ip ≡ some interface
    pub group_named : net.inet_aton m.address ≡ some group
    pub interface_set : (net.setsockopt m.send_socket (ip_multicast_if interface) s).0 ≡ none
    pub ttl_set :
        (net.setsockopt m.send_socket
          (ip_multicast_ttl ttl)
          (net.setsockopt m.send_socket (ip_multicast_if interface) s).1).0
        ≡ none
    pub whole :
        (net.sendto m.send_socket group m.port text
          (net.setsockopt m.send_socket
            (ip_multicast_ttl ttl)
            (net.setsockopt m.send_socket (ip_multicast_if interface) s).1).1).0
        ≡ pos (length text)

  sent_all-whole :
      (n : ℕ) (out : ℤ × net.State) → (sent_all net m n out).0 ≡ err_success → out.0 ≡ pos n
  sent_all-whole n (pos k, s) h = ground (arith, h)
  sent_all-whole n (negsuc k, s) h = cc

  behind_ttl-none :
      (text : Text) (out : Option OptionErrno × net.State)
      → (behind_ttl net m text out).0 ≡ err_success
      → (out.0 ≡ none) × ((send_datagram net m text out.1).0 ≡ err_success)
  behind_ttl-none text (none, s) h = (refl, h)
  behind_ttl-none text (some e, s) h = cc

  behind_if-none :
      (text : Text) (ttl : ℕ) (out : Option OptionErrno × net.State)
      → (behind_if net m text ttl out).0 ≡ err_success
      → (out.0 ≡ none)
        × ((behind_ttl net m text (net.setsockopt m.send_socket (ip_multicast_ttl ttl) out.1)).0
            ≡ err_success)
  behind_if-none text ttl (none, s) h = (refl, h)
  behind_if-none text ttl (some e, s) h = cc

  send_datagram-whole :
      (text : Text) (s : net.State)
      → (send_datagram net m text s).0 ≡ err_success
      → (group : ℕ) × (net.inet_aton m.address ≡ some group)
        × ((net.sendto m.send_socket group m.port text s).0 ≡ pos (length text))
  send_datagram-whole text s h = elim (Option-cases (net.inet_aton m.address)) [
    | inl e ↦ let h' = rw (send_datagram, e) at h in cc
    | inr (group, e) ↦ (group, e, sent_all-whole (length text) _ (rw (send_datagram, e) at h))
  ]

  send_by_address-IsSent :
      (interface_ip text : Text) (ttl : ℕ) (s : net.State)
      → (send_by_address net m interface_ip text ttl s).0 ≡ err_success
      → IsSent interface_ip text ttl s
  unfolding send_by_address
  send_by_address-IsSent interface_ip text ttl s h =
      elim (Option-cases (net.inet_aton interface_ip)) [
        | inl e ↦ let h' = rw (send_by_address, e) at h in cc
        | inr (interface, e) ↦
            let (set, h1) = behind_if-none text ttl _ (rw (send_by_address, e) at h) in
            let (ttl_is, h2) = behind_ttl-none text _ h1 in
            let (group, named, whole) = send_datagram-whole text _ h2 in
            record {
              interface = interface;
              group = group;
              interface_named = e;
              group_named = named;
              interface_set = set;
              ttl_set = ttl_is;
              whole = whole;
            }
      ]

  whole-sent_all :
      (n : ℕ) (out : ℤ × net.State) → out.0 ≡ pos n → (sent_all net m n out).0 ≡ err_success
  whole-sent_all n (pos k, s) h = ground (arith, h)
  whole-sent_all n (negsuc k, s) h = cc

  none-behind_ttl :
      (text : Text) (out : Option OptionErrno × net.State)
      → out.0 ≡ none
      → (send_datagram net m text out.1).0 ≡ err_success
      → (behind_ttl net m text out).0 ≡ err_success
  none-behind_ttl text (none, s) e h = h
  none-behind_ttl text (some x, s) e h = cc

  none-behind_if :
      (text : Text) (ttl : ℕ) (out : Option OptionErrno × net.State)
      → out.0 ≡ none
      → (behind_ttl net m text (net.setsockopt m.send_socket (ip_multicast_ttl ttl) out.1)).0
        ≡ err_success
      → (behind_if net m text ttl out).0 ≡ err_success
  none-behind_if text ttl (none, s) e h = h
  none-behind_if text ttl (some x, s) e h = cc

  send_by_address_iff :
      (interface_ip text : Text) (ttl : ℕ) (s : net.State)
      → ((send_by_address net m interface_ip text ttl s).0 ≡ err_success)
        ↔ IsSent interface_ip text ttl s
  unfolding send_by_address
  send_by_address_iff interface_ip text ttl s = (
    send_by_address-IsSent interface_ip text ttl s,
    λ sent.
        rw (send_by_address, sent.interface_named)
          (none-behind_if text ttl _ sent.interface_set (
            none-behind_ttl text _ sent.ttl_set
              (rw (send_datagram, sent.group_named) (whole-sent_all (length text) _ sent.whole)))),
  )

  bytes_iff :
      (interface_ip : Text) (bytes : Option Text) (size ttl : ℕ) (s : net.State)
      → ((send_over_interface_by_address net m interface_ip bytes size ttl s).0 ≡ err_success) ↔ (
          ((bytes ≡ none)
            × (size ≡ 0)
            × ((send_over_interface_by_address net m interface_ip bytes size ttl s).1 ≡ s))
          ⊎ ((text : Text) × (bytes ≡ some text) × IsSent interface_ip text ttl s))
  unfolding send_over_interface_by_address
  bytes_iff interface_ip none zero ttl s = (λ e. inl (refl, refl, refl), λ h. refl)
  bytes_iff interface_ip none (suc size) ttl s =
      let given : ltb 0 (suc size) ≡ true = ground arith in
      (
        λ e. let e' = rw given at e in cc,
        λ h. elim h [ inl (_, no_size, _) ↦ cc | inr (text, no_text, _) ↦ cc ],
      )
  bytes_iff interface_ip (some text) size ttl s =
      let both = send_by_address_iff interface_ip text ttl s in
      (
        λ e. inr (text, refl, both.0 e),
        λ h. elim h [
          | inl (no_text, _, _) ↦ cc
          | inr (t, same, sent) ↦
              both.1 (subst (λ u. IsSent interface_ip u ttl s) (sym (some-injective _ _ same)) sent)
        ],
      )

  text_iff :
      (interface_ip text : Text) (ttl : ℕ) (s : net.State)
      → ((send_text_by_address net m interface_ip text ttl s).0 ≡ err_success) ↔ (
          ((text ≡ []) × ((send_text_by_address net m interface_ip text ttl s).1 ≡ s))
          ⊎ IsSent interface_ip text ttl s)
  unfolding send_text_by_address
  text_iff interface_ip [] ttl s = (λ e. inl (refl, refl), λ h. refl)
  text_iff interface_ip (b ∷ text) ttl s =
      let both = send_by_address_iff interface_ip (b ∷ text) ttl s in
      (λ e. inr (both.0 e), λ h. elim h [ inl (no_text, _) ↦ cc | inr sent ↦ both.1 sent ])

  -- A variant of `sendOverInterfaceByAddress` reports success exactly if there is nothing to send and
  -- the state is left as it is, which is a null pointer with the length 0 for the one variant and an
  -- empty string for the other, or the datagram is sent whole over the interface and to the group of
  -- the server, behind both options.
  pub send_over_interface_by_address-IsSent :
      (interface_ip : Text) (bytes : Option Text) (text : Text) (size ttl : ℕ) (s : net.State)
      → (((send_over_interface_by_address net m interface_ip bytes size ttl s).0 ≡ err_success) ↔ (
          ((bytes ≡ none)
            × (size ≡ 0)
            × ((send_over_interface_by_address net m interface_ip bytes size ttl s).1 ≡ s))
          ⊎ ((t : Text) × (bytes ≡ some t) × IsSent interface_ip t ttl s)))
        × (((send_text_by_address net m interface_ip text ttl s).0 ≡ err_success) ↔ (
            ((text ≡ []) × ((send_text_by_address net m interface_ip text ttl s).1 ≡ s))
            ⊎ IsSent interface_ip text ttl s))
  send_over_interface_by_address-IsSent interface_ip bytes text size ttl s =
      (bytes_iff interface_ip bytes size ttl s, text_iff interface_ip text ttl s)
