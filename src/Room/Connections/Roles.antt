-- ===== src/Room/Connections/Roles.antt =====
-- What each operation on the registry changes of what is known about a connection.
use veilroom.Prelude.{
  Option, Option-cases, arith, false, if◌then◌else◌, inl, inr, nat_eq, none, some, true, ◌==◌, ◌≡◌,
  list_eq, pair_eq,
}
use veilroom.Prelude.HashMap.{
  IsDistinct, get-insert, get-remove, insert-IsDistinct, remove-IsDistinct,
}
use veilroom.Prelude.HashMap
use veilroom.Event.{ConnectionId, MemberId, RequestId}
use veilroom.Room.Connections.{
  admission, pending, member, ConnectionEntry, Connections, get, register, mark_password_verified,
  attach_request, promote, remove,
}

pub data Call : Type 0 where
  registers marks removes : ConnectionId → Call
  attaches : ConnectionId → RequestId → Call
  promotes : ConnectionId → MemberId → Call

pub step : Connections → Call → Connections
step c (registers id) = register c id
step c (marks id) = (mark_password_verified c id).0
step c (removes id) = (remove c id).0
step c (attaches id r) = (attach_request c id r).0
step c (promotes id m) = (promote c id m).0

abbrev pub target : Call → ConnectionId
target (registers id) = id
target (marks id) = id
target (removes id) = id
target (attaches id r) = id
target (promotes id m) = id

-- The life of one connection: registering an unknown one starts its admission, and nothing but
-- registering brings it to be known.
abbrev pub life : Call → Option ConnectionEntry → Option ConnectionEntry
life (registers id) none = some (record { id = id; password_verified = false; role = admission })
life (registers id) (some e) = some e
life (removes id) e = none
life (marks id) (some e) = some (record e { password_verified = true })
life (attaches id r) (some e) = some (record e { role = pending r })
life (promotes id m) (some e) = some (record e { role = member m })
life (marks id) none = none
life (attaches id r) none = none
life (promotes id m) none = none

-- The registry is a table of such lives: an operation takes the connection that it names one step
-- on, known or not, and leaves what is known of every other connection.
pub step-life :
    (c : Connections) (a : Call) (j : ConnectionId)
    → get (step c a) j ≡ (if target a == j then life a (get c j) else get c j)
unfolding step get register mark_password_verified attach_request promote remove
step-life c (registers id) j = ground (
  arith,
  nat_eq.eq_iff id j,
  get-insert id j (record { id = id; password_verified = false; role = admission }) c.entries,
)
step-life c (marks id) j = elim (Option-cases (HashMap.get id c.entries)) [
  | inl e ↦ ground (arith, e, nat_eq.eq_iff id j)
  | inr (x, e) ↦ ground (
    arith,
    e,
    nat_eq.eq_iff id j,
    get-insert id j (record x { password_verified = true }) c.entries,
  )
]
step-life c (removes id) j = get-remove id j c.entries
step-life c (attaches id r) j = elim (Option-cases (HashMap.get id c.entries)) [
  | inl e ↦ ground (arith, e, nat_eq.eq_iff id j)
  | inr (x, e) ↦
      ground
        (arith, e, nat_eq.eq_iff id j, get-insert id j (record x { role = pending r }) c.entries)
]
step-life c (promotes id m) j = elim (Option-cases (HashMap.get id c.entries)) [
  | inl e ↦ ground (arith, e, nat_eq.eq_iff id j)
  | inr (x, e) ↦
      ground
        (arith, e, nat_eq.eq_iff id j, get-insert id j (record x { role = member m }) c.entries)
]
