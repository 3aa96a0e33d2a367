-- ===== src/Protocol/Ids.antt =====
-- protocol/ids.rs: the message types with their wire ids, their classes, and the error codes.
pub mod Registry
use veilroom.Prelude.{
  Bool, Option, false, if◌then◌else◌, none, some, true, ℕ, ◌==◌, nat_eq, list_eq, pair_eq,
}

pub data MessageType : Type 0 where
  host_hello client_hello token_verify password_challenge challenge_proof join_request : MessageType
  join_accepted join_rejected member_joined member_left member_kicked join_policy_changed :
      MessageType
  member_snapshot chat_message color_change timeout_request timeout_changed epoch_wrap : MessageType
  epoch_ack keepalive error shutdown : MessageType

pub data MessageClass : Type 0 where
  handshake authentication join membership chat epoch control : MessageClass

unfoldable pub as_u8 : MessageType → ℕ
as_u8 host_hello = 0x01
as_u8 client_hello = 0x02
as_u8 token_verify = 0x03
as_u8 password_challenge = 0x04
as_u8 challenge_proof = 0x05
as_u8 join_request = 0x06
as_u8 join_accepted = 0x07
as_u8 join_rejected = 0x08
as_u8 member_joined = 0x20
as_u8 member_left = 0x21
as_u8 member_kicked = 0x22
as_u8 join_policy_changed = 0x23
as_u8 member_snapshot = 0x24
as_u8 chat_message = 0x40
as_u8 color_change = 0x41
as_u8 timeout_request = 0x42
as_u8 timeout_changed = 0x43
as_u8 epoch_wrap = 0x60
as_u8 epoch_ack = 0x61
as_u8 keepalive = 0x80
as_u8 error = 0x81
as_u8 shutdown = 0x82

unfoldable pub from_u8 : ℕ → Option MessageType
from_u8 id =
    if id == 0x01
    then some host_hello
    else if id == 0x02
    then some client_hello
    else if id == 0x03
    then some token_verify
    else if id == 0x04
    then some password_challenge
    else if id == 0x05
    then some challenge_proof
    else if id == 0x06
    then some join_request
    else if id == 0x07
    then some join_accepted
    else if id == 0x08
    then some join_rejected
    else if id == 0x20
    then some member_joined
    else if id == 0x21
    then some member_left
    else if id == 0x22
    then some member_kicked
    else if id == 0x23
    then some join_policy_changed
    else if id == 0x24
    then some member_snapshot
    else if id == 0x40
    then some chat_message
    else if id == 0x41
    then some color_change
    else if id == 0x42
    then some timeout_request
    else if id == 0x43
    then some timeout_changed
    else if id == 0x60
    then some epoch_wrap
    else if id == 0x61
    then some epoch_ack
    else if id == 0x80
    then some keepalive
    else if id == 0x81
    then some error
    else if id == 0x82
    then some shutdown
    else none

unfoldable pub class : MessageType → MessageClass
class host_hello = handshake
class client_hello = handshake
class token_verify = authentication
class password_challenge = authentication
class challenge_proof = authentication
class join_request = join
class join_accepted = join
class join_rejected = join
class member_joined = membership
class member_left = membership
class member_kicked = membership
class join_policy_changed = membership
class member_snapshot = membership
class chat_message = chat
class color_change = chat
class timeout_request = chat
class timeout_changed = chat
class epoch_wrap = epoch
class epoch_ack = epoch
class keepalive = control
class error = control
class shutdown = control

pub data ErrorCode : Type 0 where
  protocol_violation unsupported_version invalid_invitation room_locked : ErrorCode
  invalid_password_proof connection_timeout room_closed rate_limited internal : ErrorCode

unfoldable pub error_as_u8 : ErrorCode → ℕ
error_as_u8 protocol_violation = 1
error_as_u8 unsupported_version = 2
error_as_u8 invalid_invitation = 3
error_as_u8 room_locked = 4
error_as_u8 invalid_password_proof = 5
error_as_u8 connection_timeout = 6
error_as_u8 room_closed = 7
error_as_u8 rate_limited = 8
error_as_u8 internal = 9

unfoldable pub error_from_u8 : ℕ → Option ErrorCode
error_from_u8 code =
    if code == 1
    then some protocol_violation
    else if code == 2
    then some unsupported_version
    else if code == 3
    then some invalid_invitation
    else if code == 4
    then some room_locked
    else if code == 5
    then some invalid_password_proof
    else if code == 6
    then some connection_timeout
    else if code == 7
    then some room_closed
    else if code == 8
    then some rate_limited
    else if code == 9
    then some internal
    else none

unfoldable pub is_recoverable : ErrorCode → Bool
is_recoverable rate_limited = true
is_recoverable _ = false
