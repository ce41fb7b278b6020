-- ===== src/Socks5.antt =====
-- lib/mb-proto-socks5/src/lib.rs: what the messages of SOCKS5 hold, and their codes on the wire.
-- A decoder gives its value and the bytes that it leaves; on an error it leaves all of them.
use meshbus_rs.Prelude.{ℕ, ◌==◌, if◌then◌else◌, Text, Bytes, List, Option, none, some}
use meshbus_rs.Endpoint.{Endpoint, ParseError}
pub mod Address
pub mod Greetings
pub mod Requests
pub mod Lengths
pub mod UserPass
pub mod Datagrams
pub mod Tests

pub data Method : Type 0 where
  no_auth gss_api user_pass : Method
  unknown : ℕ → Method

unfoldable pub wire_code : Method → ℕ
wire_code Method.no_auth = 0
wire_code Method.gss_api = 1
wire_code Method.user_pass = 2
wire_code (Method.unknown code) = code

pub data Reply : Type 0 where
  succeeded general_failure connection_not_allowed network_unreachable host_unreachable : Reply
  connection_refused ttl_expired command_not_supported address_type_not_supported : Reply

unfoldable pub reply_code : Reply → ℕ
reply_code Reply.succeeded = 0
reply_code Reply.general_failure = 1
reply_code Reply.connection_not_allowed = 2
reply_code Reply.network_unreachable = 3
reply_code Reply.host_unreachable = 4
reply_code Reply.connection_refused = 5
reply_code Reply.ttl_expired = 6
reply_code Reply.command_not_supported = 7
reply_code Reply.address_type_not_supported = 8

unfoldable pub reply_from_wire : ℕ → Reply
reply_from_wire code =
    if code == 0
    then Reply.succeeded
    else if code == 2
    then Reply.connection_not_allowed
    else if code == 3
    then Reply.network_unreachable
    else if code == 4
    then Reply.host_unreachable
    else if code == 5
    then Reply.connection_refused
    else if code == 6
    then Reply.ttl_expired
    else if code == 7
    then Reply.command_not_supported
    else if code == 8
    then Reply.address_type_not_supported
    else Reply.general_failure

pub data Command : Type 0 where
  connect bind udp_associate : Command

unfoldable pub command_code : Command → ℕ
command_code Command.connect = 1
command_code Command.bind = 2
command_code Command.udp_associate = 3

pub record Greeting : Type 0 where
  pub methods : List Method

pub record Request : Type 0 where
  pub command : Command
  pub endpoint : Endpoint

pub record ReplyFrame : Type 0 where
  pub reply : Reply
  pub endpoint : Option Endpoint

pub record UdpDatagram : Type 0 where
  pub target : Endpoint
  pub payload : Bytes

pub record UserPassRequest : Type 0 where
  pub username : Bytes
  pub password : Bytes

-- `endpoint` carries the error itself, of which the code keeps the text.
pub data CodecError : Type 0 where
  incomplete invalid_host invalid_auth_len : CodecError
  unsupported_version invalid_atyp unsupported_command unsupported_fragment : ℕ → CodecError
  reserved_not_zero unsupported_auth_version : ℕ → CodecError
  endpoint : ParseError → CodecError

-- `std::net::Ipv4Addr` and `Ipv6Addr`: texts read as octets, and octets written as texts.
pub record IpText : Type 0 where
  pub parse4 : Text → Option Bytes
  pub show4 : Bytes → Text
  pub parse6 : Text → Option Bytes
  pub show6 : Bytes → Text
