-- ===== src/Room/Connections.antt =====
-- room/connections.rs: the connections that the room knows, and the role of each.
pub mod Roles
pub mod NonMembers
use veilroom.Prelude.{
  Bool, List, Option, [], and_then, false, if◌then◌else◌, none, some, true, ◌∷◌, nat_eq, list_eq,
  pair_eq,
}
use veilroom.Prelude.HashMap
use veilroom.Prelude.HashMap.{HashMap}
use veilroom.Event.{ConnectionId, MemberId, RequestId}

pub data ConnectionRole : Type 0 where
  admission : ConnectionRole
  pending : RequestId → ConnectionRole
  member : MemberId → ConnectionRole

pub record ConnectionEntry : Type 0 where
  pub id : ConnectionId
  pub password_verified : Bool
  pub role : ConnectionRole

pub record Connections : Type 0 where
  pub entries : HashMap ConnectionId ConnectionEntry

unfoldable pub new : Connections
new = record { entries = [] }

unfoldable pub get : Connections → ConnectionId → Option ConnectionEntry
get c id = HashMap.get id c.entries

-- `entry(id).or_insert(…)`
register_found : Connections → ConnectionId → Option ConnectionEntry → Connections
register_found c id (some entry) = c
register_found c id none = record {
  entries =
      HashMap.insert id (record { id = id; password_verified = false; role = admission }) c.entries;
}

unfoldable pub register : Connections → ConnectionId → Connections
unfolding register_found
register c id = register_found c id (HashMap.get id c.entries)

-- A write through `get_mut(&id)?`: the registry, and whether the connection is known.
update_found :
    Connections
    → ConnectionId
    → (ConnectionEntry → ConnectionEntry)
    → Option ConnectionEntry
    → Connections × Bool
update_found c id f none = (c, false)
update_found c id f (some entry) =
    (record { entries = HashMap.insert id (f entry) c.entries }, true)

update : Connections → ConnectionId → (ConnectionEntry → ConnectionEntry) → Connections × Bool
unfolding update_found
update c id f = update_found c id f (HashMap.get id c.entries)

unfoldable pub mark_password_verified : Connections → ConnectionId → Connections × Bool
unfolding update
mark_password_verified c id = update c id (λ entry. record entry { password_verified = true })

unfoldable pub attach_request : Connections → ConnectionId → RequestId → Connections × Bool
unfolding update
attach_request c id request_id = update c id (λ entry. record entry { role = pending request_id })

unfoldable pub promote : Connections → ConnectionId → MemberId → Connections × Bool
unfolding update
promote c id member_id = update c id (λ entry. record entry { role = member member_id })

abbrev pub pending_of : ConnectionRole → Option RequestId
pending_of (pending r) = some r
pending_of _ = none

abbrev pub member_of : ConnectionRole → Option MemberId
member_of (member m) = some m
member_of _ = none

abbrev pub role_of : Option ConnectionEntry → Option ConnectionRole
role_of none = none
role_of (some entry) = some entry.role

unfoldable pub request_id : Connections → ConnectionId → Option RequestId
request_id c id = and_then (role_of (HashMap.get id c.entries)) pending_of

unfoldable pub member_id : Connections → ConnectionId → Option MemberId
member_id c id = and_then (role_of (HashMap.get id c.entries)) member_of

-- The registry without the connection, and the entry that it had.
unfoldable pub remove : Connections → ConnectionId → Connections × Option ConnectionEntry
remove c id = (record { entries = HashMap.remove id c.entries }, HashMap.get id c.entries)

is_member : ConnectionRole → Bool
is_member (member m) = true
is_member _ = false

non_members : HashMap ConnectionId ConnectionEntry → List ConnectionId
non_members [] = []
non_members ((id, entry) ∷ m) = if is_member entry.role then non_members m else id ∷ non_members m

unfoldable pub non_member_ids : Connections → List ConnectionId
unfolding non_members is_member
non_member_ids c = non_members c.entries

unfoldable pub ids : Connections → List ConnectionId
ids c = HashMap.keys c.entries
