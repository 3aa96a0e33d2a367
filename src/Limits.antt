-- ===== src/Limits.antt =====
-- limits.rs: the resource limits, and the test that a configuration is usable.
pub mod Validity
use veilroom.Prelude.{Bool, false, ltb, true, ℕ, ◌*◌, ◌==◌, nat_eq, list_eq, pair_eq}

pub record Limits : Type 0 where
  pub max_active_members : ℕ
  pub max_pending_requests : ℕ
  pub max_pre_auth_connections : ℕ
  pub max_frame_size : ℕ
  pub max_chat_text_bytes : ℕ
  pub max_nickname_scalars : ℕ
  pub max_intro_scalars : ℕ
  pub max_cbor_nesting_depth : ℕ
  pub max_cbor_map_entries : ℕ
  pub max_cbor_array_entries : ℕ
  pub max_cbor_text_bytes : ℕ
  pub max_cbor_bytes_len : ℕ

-- `Limits::default()`.
abbrev pub default : Limits
default = record {
  max_active_members = 16;
  max_pending_requests = 8;
  max_pre_auth_connections = 16;
  max_frame_size = 16 * 1024;
  max_chat_text_bytes = 4096;
  max_nickname_scalars = 32;
  max_intro_scalars = 160;
  max_cbor_nesting_depth = 8;
  max_cbor_map_entries = 64;
  max_cbor_array_entries = 256;
  max_cbor_text_bytes = 4096;
  max_cbor_bytes_len = 4096;
}

unfoldable pub with_max_active_members : ℕ → Limits
with_max_active_members n = record default { max_active_members = n }

-- The limit that `validate` complains of: the text of `InvalidLimits` names it.
pub data InvalidLimits : Type 0 where
  zero_active_members zero_pending_requests zero_pre_auth_connections zero_frame_size :
      InvalidLimits
  zero_chat_text_bytes zero_nickname_scalars zero_intro_scalars frame_below_chat_text :
      InvalidLimits
  zero_cbor_nesting_depth zero_cbor_map_entries zero_cbor_array_entries : InvalidLimits
  zero_cbor_text_bytes zero_cbor_bytes_len : InvalidLimits

pub data Validated : Type 0 where
  ok : Validated
  err : InvalidLimits → Validated

-- An early return with the error if the test holds.
abbrev fail_if : Bool → InvalidLimits → Validated → Validated
fail_if true e rest = err e
fail_if false e rest = rest

validate_cbor : Limits → Validated
validate_cbor l = fail_if (l.max_cbor_nesting_depth == 0) zero_cbor_nesting_depth (
    fail_if (l.max_cbor_map_entries == 0) zero_cbor_map_entries (
      fail_if (l.max_cbor_array_entries == 0) zero_cbor_array_entries (
        fail_if (l.max_cbor_text_bytes == 0) zero_cbor_text_bytes
          (fail_if (l.max_cbor_bytes_len == 0) zero_cbor_bytes_len ok))))

unfoldable pub validate : Limits → Validated
unfolding validate_cbor
validate l = fail_if (l.max_active_members == 0) zero_active_members (
    fail_if (l.max_pending_requests == 0) zero_pending_requests (
      fail_if (l.max_pre_auth_connections == 0) zero_pre_auth_connections (
        fail_if (l.max_frame_size == 0) zero_frame_size (
          fail_if (l.max_chat_text_bytes == 0) zero_chat_text_bytes (
            fail_if (l.max_nickname_scalars == 0) zero_nickname_scalars (
              fail_if (l.max_intro_scalars == 0) zero_intro_scalars (
                fail_if (ltb l.max_frame_size l.max_chat_text_bytes) frame_below_chat_text
                  (validate_cbor l))))))))

pub data TimeoutKind : Type 0 where
  protocol_handshake token_validation password_verification join_form_submission : TimeoutKind
  host_decision epoch_acknowledgement keepalive graceful_shutdown : TimeoutKind

-- The timeouts, each in nanoseconds.
pub record Timeouts : Type 0 where
  pub protocol_handshake : ℕ
  pub token_validation : ℕ
  pub password_verification : ℕ
  pub join_form_submission : ℕ
  pub host_decision : ℕ
  pub epoch_acknowledgement : ℕ
  pub keepalive_interval : ℕ
  pub graceful_shutdown : ℕ

-- `Duration::from_secs`.
abbrev pub from_secs : ℕ → ℕ
from_secs s = s * 1000000000

abbrev pub default_timeouts : Timeouts
default_timeouts = record {
  protocol_handshake = from_secs 30;
  token_validation = from_secs 30;
  password_verification = from_secs 60;
  join_form_submission = from_secs 120;
  host_decision = from_secs 300;
  epoch_acknowledgement = from_secs 30;
  keepalive_interval = from_secs 30;
  graceful_shutdown = from_secs 10;
}

unfoldable pub timeout : Timeouts → TimeoutKind → ℕ
timeout t TimeoutKind.protocol_handshake = t.protocol_handshake
timeout t TimeoutKind.token_validation = t.token_validation
timeout t TimeoutKind.password_verification = t.password_verification
timeout t TimeoutKind.join_form_submission = t.join_form_submission
timeout t TimeoutKind.host_decision = t.host_decision
timeout t TimeoutKind.epoch_acknowledgement = t.epoch_acknowledgement
timeout t TimeoutKind.keepalive = t.keepalive_interval
timeout t TimeoutKind.graceful_shutdown = t.graceful_shutdown
