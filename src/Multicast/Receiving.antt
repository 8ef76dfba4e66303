-- ===== src/Multicast/Receiving.antt =====
-- `receiveTelegram` of the multicast server, and what the event loop calls.
use mathlib.Core.Option
use devscan.Base.{
  ℕ, ◌≡◌, ◌⊎◌, inl, inr, refl, ap, ◌∙◌, Option-cases, Option, none, some, List, [], ◌∷◌, length,
  if◌then◌else◌,
}
use devscan.Base.Text.{Text}
use devscan.Base.Int.{ℤ, pos, minus_one, is_pos}
use devscan.Result.{Result, ok, throw}
use devscan.Adapters.Netadapter.{Netadapter}
use devscan.Adapters.Enumeration.{Adapters, find_adapter, get_adapter_by_interface_index}
use devscan.Multicast.Network.{
  Network, MulticastServer, ControlMessage, ip_pktinfo_message, ip_ttl_message, other_message,
}

-- What a telegram comes with: the result, the data, the index of the adapter and the ttl.
pub record Telegram : Type 0 where
  pub nbytes : ℤ
  pub data_bytes : Text
  pub adapter_index : ℕ
  pub ttl : ℤ

-- The loop over the control messages.
unfoldable pub read_control : List ControlMessage → ℕ → ℤ → ℕ × ℤ
read_control [] adapter_index ttl = (adapter_index, ttl)
read_control (ip_pktinfo_message index ∷ rest) adapter_index ttl = read_control rest index ttl
read_control (ip_ttl_message value ∷ rest) adapter_index ttl = read_control rest adapter_index value
read_control (other_message ∷ rest) adapter_index ttl = read_control rest adapter_index ttl

-- What follows `recvmsg`; `adapter_index` stays as it was where nothing was received.
unfoldable pub telegram_of : ℕ → Option (Text × List ControlMessage) → Telegram
unfolding read_control
telegram_of adapter_index none = record {
  nbytes = minus_one;
  data_bytes = [];
  adapter_index = adapter_index;
  ttl = pos 1;
}
telegram_of adapter_index (some ([], control)) = record {
  nbytes = pos 0;
  data_bytes = [];
  adapter_index = adapter_index;
  ttl = pos 1;
}
telegram_of adapter_index (some (b ∷ bytes, control)) =
    let (index, ttl) = read_control control adapter_index (pos 1) in
    record {
      nbytes = pos (length (b ∷ bytes));
      data_bytes = b ∷ bytes;
      adapter_index = index;
      ttl = ttl;
    }

module _ (net : Network) (m : MulticastServer) where
  -- The variant that returns the index.
  unfoldable pub receive_telegram : ℕ → ℕ → net.State → Telegram × net.State
  unfolding telegram_of
  receive_telegram len adapter_index s =
      let (received, s') = net.recvmsg m.receive_socket len s in
      (telegram_of adapter_index received, s')

  abbrev with_adapter :
      Telegram → Result Netadapter → net.State → Telegram × Option Netadapter × net.State
  with_adapter t (ok adapter) s = (t, some adapter, s)
  with_adapter t (throw e) s = (record t { nbytes = minus_one }, none, s)

  -- The variant that returns the adapter.
  unfoldable pub receive_telegram_adapter :
      Adapters → ℕ → net.State → Telegram × Option Netadapter × net.State
  unfolding receive_telegram
  receive_telegram_adapter adapters len s =
      let (t, s') = receive_telegram len 0 s in
      if is_pos t.nbytes
      then with_adapter t (get_adapter_by_interface_index t.adapter_index adapters) s'
      else (t, none, s')

  -- The variant that returns the name of the adapter.
  unfoldable pub receive_telegram_name :
      Adapters → ℕ → net.State → Telegram × Option Text × net.State
  unfolding receive_telegram_adapter
  receive_telegram_name adapters len s =
      let (t, adapter, s') = receive_telegram_adapter adapters len s in
      (t, Option.map (λ (a : Netadapter). a.name) adapter, s')

  -- `process`, with the result of the handler.
  unfoldable pub process : ℤ → ℤ
  process handled = if m.has_data_handler then handled else minus_one

-- The index that the last message about the interface gives.
abbrev pub last_index : List ControlMessage → Option ℕ → Option ℕ
last_index [] known = known
last_index (ip_pktinfo_message index ∷ rest) known = last_index rest (some index)
last_index (_ ∷ rest) known = last_index rest known

abbrev pub or_else : Option ℕ → ℕ → ℕ
or_else none i = i
or_else (some j) i = j

pub read_control-last_index :
    (control : List ControlMessage) (known : Option ℕ) (i : ℕ) (ttl : ℤ)
    → (read_control control (or_else known i) ttl).0 ≡ or_else (last_index control known) i
unfolding read_control
read_control-last_index [] known i ttl = refl
read_control-last_index (ip_pktinfo_message j ∷ rest) known i ttl =
    read_control-last_index rest (some j) i ttl
read_control-last_index (ip_ttl_message v ∷ rest) known i ttl =
    read_control-last_index rest known i v
read_control-last_index (other_message ∷ rest) known i ttl =
    read_control-last_index rest known i ttl

module _ (net : Network) (m : MulticastServer) where
  -- A telegram that was received with a message about its interface is handed over with the adapter of
  -- that index, if there is one, and else the result is -1 and there is no adapter.
  receive_telegram_adapter-last_index :
      (adapters : Adapters) (len : ℕ) (s s' : net.State) (b : ℕ) (bytes : Text)
      (control : List ControlMessage) (index : ℕ)
      → net.recvmsg m.receive_socket len s ≡ (some (b ∷ bytes, control), s')
      → last_index control none ≡ some index
      → ((adapter : Netadapter) × (find_adapter index adapters ≡ some adapter)
          × ((receive_telegram_adapter net m adapters len s).1 ≡ some adapter)
          × ((receive_telegram_adapter net m adapters len s).0.nbytes ≡ pos (length (b ∷ bytes)))
          × ((receive_telegram_adapter net m adapters len s).0.data_bytes ≡ b ∷ bytes))
        ⊎ ((find_adapter index adapters ≡ none)
            × ((receive_telegram_adapter net m adapters len s).1 ≡ none)
            × ((receive_telegram_adapter net m adapters len s).0.nbytes ≡ minus_one))
  unfolding receive_telegram_adapter receive_telegram telegram_of get_adapter_by_interface_index
  receive_telegram_adapter-last_index adapters len s s' b bytes control index h l =
      let i : (read_control control 0 (pos 1)).0 ≡ index =
        read_control-last_index control none 0 (pos 1) ∙ ap (λ o. or_else o 0) l in
      elim (Option-cases (find_adapter index adapters)) [
        | inl e ↦ inr (
          e,
          rw (receive_telegram_adapter, h, i, get_adapter_by_interface_index, e) refl,
          rw (receive_telegram_adapter, h, i, get_adapter_by_interface_index, e) refl,
        )
        | inr (a, e) ↦ inl (
          a,
          e,
          rw (receive_telegram_adapter, h, i, get_adapter_by_interface_index, e) refl,
          rw (receive_telegram_adapter, h, i, get_adapter_by_interface_index, e) refl,
          rw (receive_telegram_adapter, h, i, get_adapter_by_interface_index, e) refl,
        )
      ]
