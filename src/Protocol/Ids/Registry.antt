-- ===== src/Protocol/Ids/Registry.antt =====
-- The wire ids and codes name what they are read as.
use veilroom.Prelude.{arith, some, ℕ, ◌<◌, ◌↔◌, ◌≡◌}
use veilroom.Protocol.Ids.{MessageType, ErrorCode, as_u8, from_u8, error_as_u8, error_from_u8}

pub from_u8-as_u8 : (t : MessageType) → from_u8 (as_u8 t) ≡ some t
unfolding from_u8 as_u8
from_u8-as_u8 t = ground arith

pub as_u8-lt : (t : MessageType) → as_u8 t < 256
unfolding as_u8
as_u8-lt t = ground arith

pub of_from_u8 : (i : ℕ) (t : MessageType) → from_u8 i ≡ some t → i ≡ as_u8 t
unfolding from_u8 as_u8
of_from_u8 i t h = ground arith

error_from_u8-error_as_u8 : (e : ErrorCode) → error_from_u8 (error_as_u8 e) ≡ some e
unfolding error_from_u8 error_as_u8
error_from_u8-error_as_u8 e = ground arith

of_error_from_u8 : (i : ℕ) (e : ErrorCode) → error_from_u8 i ≡ some e → i ≡ error_as_u8 e
unfolding error_from_u8 error_as_u8
of_error_from_u8 i e h = ground arith

-- A byte is read as a message type exactly when it is the id that this type is sent with, and a code
-- as an error exactly when it is the code of this error.
pub from_u8_iff :
    (i : ℕ) (t : MessageType) (e : ErrorCode)
    → ((from_u8 i ≡ some t) ↔ (i ≡ as_u8 t)) × ((error_from_u8 i ≡ some e) ↔ (i ≡ error_as_u8 e))
from_u8_iff i t e = (
  (of_from_u8 i t, λ h. rw h (from_u8-as_u8 t)),
  (of_error_from_u8 i e, λ h. rw h (error_from_u8-error_as_u8 e)),
)
