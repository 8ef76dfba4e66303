-- ===== src/Multicast/Sending.antt =====
-- `send`, `sendOverInterface` and `sendOverInterfaceByAddress` of the multicast server. Bytes are a text, of the
-- length that is passed with them; `none` stands for a null pointer with a length.
use devscan.Base.{
  ℕ, ◌==◌, Bool, false, Option, none, some, List, [], ◌∷◌, length, ltb, if◌then◌else◌,
}
use devscan.Base.Text.{Text, is_empty}
use devscan.Base.Int.{ℤ, pos, negsuc, is_zero}
use devscan.Result.{Result, ok, throw}
use devscan.Adapters.Netadapter.{Netadapter, Ipv4Address}
use devscan.Adapters.Enumeration.{Adapters, get_adapter_by_interface_index}
use devscan.Multicast.Network.{
  Network, MulticastServer, OptionErrno, ip_multicast_if, ip_multicast_ttl, err_success,
  err_no_success, err_invalid_adapter, err_invalid_ip_address, err_adapter_is_down,
}

abbrev pub is_length : ℤ → ℕ → Bool
is_length (pos n) m = n == m
is_length (negsuc n) m = false

module _ (net : Network) (m : MulticastServer) where
  abbrev pub sent_all : ℕ → ℤ × net.State → ℤ × net.State
  sent_all n (nbytes, s) = if is_length nbytes n then (err_success, s) else (err_no_success, s)

  abbrev pub send_datagram : Text → net.State → ℤ × net.State
  send_datagram text s = elim (net.inet_aton m.address) [
    | none ↦ (err_no_success, s)
    | some group ↦ sent_all (length text) (net.sendto m.send_socket group m.port text s)
  ]

  abbrev pub behind_ttl : Text → Option OptionErrno × net.State → ℤ × net.State
  behind_ttl text (some e, s) = (err_no_success, s)
  behind_ttl text (none, s) = send_datagram text s

  abbrev pub behind_if : Text → ℕ → Option OptionErrno × net.State → ℤ × net.State
  behind_if text ttl (some e, s) = (err_invalid_adapter, s)
  behind_if text ttl (none, s) =
      behind_ttl text (net.setsockopt m.send_socket (ip_multicast_ttl ttl) s)

  -- The variant for a pointer that is not null.
  unfoldable pub send_by_address : Text → Text → ℕ → net.State → ℤ × net.State
  send_by_address interface_ip text ttl s = elim (net.inet_aton interface_ip) [
    | none ↦ (err_invalid_ip_address, s)
    | some interface ↦
        behind_if text ttl (net.setsockopt m.send_socket (ip_multicast_if interface) s)
  ]

  -- The variant for a pointer and a length.
  unfoldable pub send_over_interface_by_address :
      Text → Option Text → ℕ → ℕ → net.State → ℤ × net.State
  unfolding send_by_address
  send_over_interface_by_address interface_ip none size ttl s =
      if ltb 0 size then (err_no_success, s) else (err_success, s)
  send_over_interface_by_address interface_ip (some text) size ttl s =
      send_by_address interface_ip text ttl s

  -- The variant for a string.
  unfoldable pub send_text_by_address : Text → Text → ℕ → net.State → ℤ × net.State
  unfolding send_by_address
  send_text_by_address interface_ip text ttl s =
      if is_empty text then (err_success, s) else send_by_address interface_ip text ttl s

  abbrev by_first_address : List Ipv4Address → Option Text → ℕ → ℕ → net.State → ℤ × net.State
  by_first_address [] bytes size ttl s = (err_invalid_adapter, s)
  by_first_address (a ∷ rest) bytes size ttl s =
      send_over_interface_by_address a.address bytes size ttl s

  -- The variant for an adapter, a pointer and a length.
  unfoldable pub send_over_interface : Netadapter → Option Text → ℕ → ℕ → net.State → ℤ × net.State
  unfolding send_over_interface_by_address
  send_over_interface adapter none size ttl s =
      if ltb 0 size then (err_no_success, s) else (err_success, s)
  send_over_interface adapter (some text) size ttl s =
      if ltb 0 (length text)
      then by_first_address adapter.ipv4_addresses (some text) size ttl s
      else (err_success, s)

  abbrev text_by_first_address : List Ipv4Address → Text → ℕ → net.State → ℤ × net.State
  text_by_first_address [] text ttl s = (err_adapter_is_down, s)
  text_by_first_address (a ∷ rest) text ttl s = send_text_by_address a.address text ttl s

  -- The variant for an adapter and a string.
  unfoldable pub send_text_over_interface : Netadapter → Text → ℕ → net.State → ℤ × net.State
  unfolding send_text_by_address
  send_text_over_interface adapter text ttl s =
      if is_empty text
      then (err_success, s)
      else text_by_first_address adapter.ipv4_addresses text ttl s

  abbrev over_adapter : Result Netadapter → (Netadapter → ℤ × net.State) → net.State → ℤ × net.State
  over_adapter (ok adapter) send_over s = send_over adapter
  over_adapter (throw e) send_over s = (err_invalid_adapter, s)

  -- The variants for the index of an adapter.
  unfoldable pub send_text_over_index : Adapters → ℕ → Text → ℕ → net.State → ℤ × net.State
  unfolding send_text_over_interface
  send_text_over_index adapters index text ttl s =
      if is_empty text
      then (pos 0, s)
      else over_adapter (get_adapter_by_interface_index index adapters)
          (λ adapter. send_text_over_interface adapter text ttl s) s

  unfoldable pub send_over_index : Adapters → ℕ → Option Text → ℕ → ℕ → net.State → ℤ × net.State
  unfolding send_over_interface
  send_over_index adapters index none size ttl s = (pos 0, s)
  send_over_index adapters index (some text) size ttl s =
      over_adapter (get_adapter_by_interface_index index adapters)
        (λ adapter. send_over_interface adapter (some text) size ttl s) s

  -- The loop over the adapters: the last result that is not 0 is returned.
  unfoldable pub send_all : Adapters → Option Text → ℕ → ℕ → ℤ → net.State → ℤ × net.State
  unfolding send_over_interface
  send_all [] bytes size ttl ret_val s = (ret_val, s)
  send_all ((index, adapter) ∷ adapters) bytes size ttl ret_val s =
      let (result, s') = send_over_interface adapter bytes size ttl s in
      send_all adapters bytes size ttl (if is_zero result then ret_val else result) s'

  unfoldable pub send : Adapters → Option Text → ℕ → ℕ → net.State → ℤ × net.State
  unfolding send_all
  send adapters bytes size ttl s = send_all adapters bytes size ttl (pos 0) s

  unfoldable pub send_text : Adapters → Text → ℕ → net.State → ℤ × net.State
  unfolding send
  send_text adapters text ttl s = send adapters (some text) (length text) ttl s
