-- ===== src/Limits/Validity.antt =====
-- What a validated configuration guarantees.
use veilroom.Prelude.{◌<◌, ◌≤◌}
use veilroom.Limits.{Limits}

pub record IsUsable (l : Limits) : Type 0 where
  pub members : 0 < l.max_active_members
  pub pending : 0 < l.max_pending_requests
  pub pre_auth : 0 < l.max_pre_auth_connections
  pub frame : 0 < l.max_frame_size
  pub chat : 0 < l.max_chat_text_bytes
  pub nickname : 0 < l.max_nickname_scalars
  pub intro : 0 < l.max_intro_scalars
  pub carries_chat : l.max_chat_text_bytes ≤ l.max_frame_size
  pub nesting : 0 < l.max_cbor_nesting_depth
  pub map : 0 < l.max_cbor_map_entries
  pub array : 0 < l.max_cbor_array_entries
  pub cbor_text : 0 < l.max_cbor_text_bytes
  pub cbor_bytes : 0 < l.max_cbor_bytes_len
