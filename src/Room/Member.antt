-- ===== src/Room/Member.antt =====
-- room/member.rs: the bounded table of active members.
pub mod Unique
pub mod Admit
pub mod Host
use veilroom.Prelude.{
  Bool, Bytes, List, Option, Text, [], any, false, find, if◌then◌else◌, is_some, leb, length,
  remove_first, succ64, true, ℕ, ◌++◌, ◌==◌, ◌||◌, ◌∷◌, nat_eq, list_eq, pair_eq,
}
use veilroom.Event.{ConnectionId, MemberId}
use veilroom.Command.Color.{ColorChoice}
use veilroom.Command.Color

pub record Member : Type 0 where
  pub member_id : MemberId
  pub connection : ConnectionId
  pub nickname : Text
  pub color : ColorChoice
  pub is_host : Bool
  pub ed25519_pubkey : Bytes
  pub x25519_pubkey : Bytes
  pub joined_epoch : ℕ

pub record MemberInfo : Type 0 where
  pub member_id : MemberId
  pub nickname : Text
  pub color : ColorChoice
  pub is_host : Bool

unfoldable pub info : Member → MemberInfo
info m = record {
  member_id = m.member_id;
  nickname = m.nickname;
  color = m.color;
  is_host = m.is_host;
}

pub data MemberError : Type 0 where
  full : ℕ → MemberError
  nickname_taken : Text → MemberError
  connection_taken : ConnectionId → MemberError
  identity_taken : MemberError

pub data Result {ℓ} (A : Type ℓ) : Type ℓ where
  ok : A → Result A
  err : MemberError → Result A

pub record MemberTable : Type 0 where
  pub limit : ℕ
  pub next_id : ℕ
  pub members : List Member

unfoldable pub new : ℕ → MemberTable
new limit = record { limit = limit; next_id = 1; members = [] }

unfoldable pub is_full : MemberTable → Bool
is_full t = leb t.limit (length t.members)

unfoldable pub add_host : MemberTable → ConnectionId → Text → Bytes → Bytes → MemberTable × Member
add_host t connection nickname ed25519_pubkey x25519_pubkey =
    let m : Member = record {
      member_id = 0;
      connection = connection;
      nickname = nickname;
      color = Color.default;
      is_host = true;
      ed25519_pubkey = ed25519_pubkey;
      x25519_pubkey = x25519_pubkey;
      joined_epoch = 1;
    } in
    (record t { members = t.members ++ m ∷ [] }, m)

abbrev pub has_id : MemberId → Member → Bool
has_id id m = m.member_id == id

abbrev pub has_nickname : Text → Member → Bool
has_nickname n m = m.nickname == n

abbrev pub has_connection : ConnectionId → Member → Bool
has_connection c m = m.connection == c

abbrev pub has_key : Bytes → Bytes → Member → Bool
has_key ed x m = m.ed25519_pubkey == ed || m.x25519_pubkey == x

unfoldable pub by_id : MemberTable → MemberId → Option Member
by_id t id = find (has_id id) t.members

unfoldable pub by_nickname : MemberTable → Text → Option Member
by_nickname t n = find (has_nickname n) t.members

unfoldable pub by_connection : MemberTable → ConnectionId → Option Member
by_connection t c = find (has_connection c) t.members

unfoldable pub add :
    MemberTable → ConnectionId → Text → Bytes → Bytes → ℕ → MemberTable × Result Member
unfolding is_full by_connection
add t connection nickname ed25519_pubkey x25519_pubkey epoch =
    if is_full t
    then (t, err (full t.limit))
    else if any (has_nickname nickname) t.members
    then (t, err (nickname_taken nickname))
    else if is_some (by_connection t connection)
    then (t, err (connection_taken connection))
    else if any (has_key ed25519_pubkey x25519_pubkey) t.members
    then (t, err identity_taken)
    else (let m : Member = record {
      member_id = t.next_id;
      connection = connection;
      nickname = nickname;
      color = Color.default;
      is_host = false;
      ed25519_pubkey = ed25519_pubkey;
      x25519_pubkey = x25519_pubkey;
      joined_epoch = epoch;
    } in
        (record t { next_id = succ64 t.next_id; members = t.members ++ m ∷ [] }, ok m))

-- The table without the member, and the member that was removed.
unfoldable pub remove : MemberTable → MemberId → MemberTable × Option Member
unfolding by_id
remove t id = (record t { members = remove_first (has_id id) t.members }, by_id t id)

-- A write of the colour through `by_id_mut`: the first member with the id, if any.
recolor : MemberId → ColorChoice → List Member → List Member
recolor id color [] = []
recolor id color (m ∷ ms) =
    if has_id id m then record m { color = color } ∷ ms else m ∷ recolor id color ms

unfoldable pub set_color : MemberTable → MemberId → ColorChoice → MemberTable
unfolding recolor
set_color t id color = record t { members = recolor id color t.members }
