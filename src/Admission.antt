-- ===== src/Admission.antt =====
-- src/admission/: how a connection becomes a pending join request.
pub mod Queue
pub mod Guard
use veilroom.Prelude.{Bool, false, true}

-- admission/mod.rs
pub data JoinPolicy : Type 0 where
  open_joins locked : JoinPolicy

unfoldable pub allows_join_requests : JoinPolicy → Bool
allows_join_requests open_joins = true
allows_join_requests locked = false
