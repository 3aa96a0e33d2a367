-- ===== src/Room/Actor/Table.antt =====
-- What the handlers may do with the member table.
use veilroom.Prelude.{Bytes, Text, ℕ, ◌≢◌, nat_eq, list_eq, pair_eq}
use veilroom.Event.{ConnectionId, MemberId}
use veilroom.Command.Color.{ColorChoice}
use veilroom.Room.Member.{MemberTable, add, remove, set_color}

-- A property of tables that the operations keep: an addition to the table `t`, the removal of a member
-- other than the host, and a change of colour.
pub record Keeps (P : MemberTable → Type 0) (t : MemberTable) : Type 0 where
  pub now : P t
  pub added : (c : ConnectionId) (n : Text) (ed x : Bytes) (epoch : ℕ) → P (add t c n ed x epoch).0
  pub removed : (u : MemberTable) (id : MemberId) → id ≢ 0 → P u → P (remove u id).0
  pub recolored : (u : MemberTable) (id : MemberId) (c : ColorChoice) → P u → P (set_color u id c)
