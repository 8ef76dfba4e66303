-- ===== src/Multicast/Network.antt =====
-- The calls of the system that the multicast server makes, as parameters, and the members of the object
-- `MulticastServer` of hbm/communication/multicastserver.h. A socket that is not open is `none`.
use devscan.Base.{ℕ, Bool, false, Option, none, List, []}
use devscan.Base.Text.{Text}
use devscan.Base.Int.{ℤ, pos, negsuc}

-- `errno` behind `setsockopt`, as far as the source looks at it.
pub data OptionErrno : Type 0 where
  addr_in_use addr_not_avail other_errno : OptionErrno

pub data SocketOption : Type 0 where
  so_rcvbuf : ℕ → SocketOption
  so_reuseaddr ip_pktinfo : SocketOption
  ip_multicast_loop : ℕ → SocketOption
  -- group, interface
  ip_add_membership ip_drop_membership : ℕ → ℕ → SocketOption
  ip_multicast_if ip_multicast_ttl : ℕ → SocketOption

-- The control messages of `recvmsg`.
pub data ControlMessage : Type 0 where
  ip_pktinfo_message : ℕ → ControlMessage
  ip_ttl_message : ℤ → ControlMessage
  other_message : ControlMessage

pub record Network : Type 1 where
  pub State : Type 0
  -- `getaddrinfo` for a datagram socket: the first address
  pub resolve : Text → ℕ → Option ℕ
  pub inet_aton : Text → Option ℕ
  pub socket : State → Option ℕ × State
  -- `none` where the call returns 0
  pub setsockopt : Option ℕ → SocketOption → State → Option OptionErrno × State
  -- the port; whether the call succeeds
  pub bind : Option ℕ → ℕ → State → Bool × State
  -- group, port, data; what the call returns
  pub sendto : Option ℕ → ℕ → ℕ → Text → State → ℤ × State
  -- buffer length; the data or `none` for an error, and the control messages
  pub recvmsg : Option ℕ → ℕ → State → Option (Text × List ControlMessage) × State
  pub close : ℕ → State → State
  pub shutdown : ℕ → State → State
  -- the event loop
  pub add_event : Option ℕ → State → State
  pub erase_event : Option ℕ → State → State

pub record MulticastServer : Type 0 where
  pub address : Text
  pub port : ℕ
  pub receive_socket : Option ℕ
  pub send_socket : Option ℕ
  pub has_data_handler : Bool

abbrev pub new_server : MulticastServer
new_server = record {
  address = [];
  port = 0;
  receive_socket = none;
  send_socket = none;
  has_data_handler = false;
}

abbrev pub err_success : ℤ
err_success = pos 0

abbrev pub err_no_success : ℤ
err_no_success = negsuc 0

abbrev pub err_invalid_adapter : ℤ
err_invalid_adapter = negsuc 1

abbrev pub err_invalid_ip_address : ℤ
err_invalid_ip_address = negsuc 2

abbrev pub err_adapter_is_down : ℤ
err_adapter_is_down = negsuc 4
