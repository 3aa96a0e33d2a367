-- ===== src/Tests/Members.antt =====
-- The member table and the connections at concrete inputs.
use veilroom.Prelude.{[], arith, refl, some, text, true, ◌↔◌, ◌∷◌, ◌≡◌, nat_eq, list_eq, pair_eq}
use veilroom.Command.Color.{white}
use veilroom.Room.Member.{Member, MemberTable, MemberError, add, remove, by_id, ok, err}
use veilroom.Room.Member.Unique.{IsValid, step, removes, new_member, member_step-IsValid}
use veilroom.Room.Member.Admit.{extended, add_iff, by_id-add}
use veilroom.Room.Connections.{new, get}
use veilroom.Room.Connections.Roles.{registers, life, target, step-life}
use veilroom.Room.Connections.Roles

abbrev pub host : Member
host = record {
  member_id = 0;
  connection = 0;
  nickname = text "host";
  color = white;
  is_host = true;
  ed25519_pubkey = 1 ∷ [];
  x25519_pubkey = 2 ∷ [];
  joined_epoch = 1;
}

abbrev pub table : MemberTable
table = record { limit = 2; next_id = 1; members = host ∷ [] }

table-IsValid : IsValid table
table-IsValid = record {
  unique = (tt, tt);
  issued = (record { below = omega arith; host = refl }, tt);
  bounded = omega arith;
  started = omega arith;
}

member_step-IsValid_example : IsValid (step table (removes 0))
member_step-IsValid_example = member_step-IsValid table (removes 0) (omega arith) table-IsValid

abbrev pub guest : Member
guest = new_member table 4 (text "ada") (3 ∷ []) (4 ∷ []) 2

add_iff_example :
    ((add table 4 (text "ada") (3 ∷ []) (4 ∷ []) 2 ≡ (extended table guest, ok guest))
      ↔ IsValid (extended table guest))
    × ((e : MemberError)
        → (add table 4 (text "ada") (3 ∷ []) (4 ∷ []) 2).1 ≡ err e
        → (add table 4 (text "ada") (3 ∷ []) (4 ∷ []) 2).0 ≡ table)
add_iff_example = add_iff table 4 (text "ada") (3 ∷ []) (4 ∷ []) 2 (omega arith) table-IsValid

by_id-add_example :
    (by_id (add table 4 (text "ada") (3 ∷ []) (4 ∷ []) 2).0 1 ≡ some guest)
    × ((remove (add table 4 (text "ada") (3 ∷ []) (4 ∷ []) 2).0 1).0.members ≡ host ∷ [])
unfolding add
by_id-add_example = by_id-add table 4 (text "ada") (3 ∷ []) (4 ∷ []) 2 guest table-IsValid refl

step-life_example : get (Roles.step new (registers 4)) 4 ≡ life (registers 4) (get new 4)
step-life_example = step-life new (registers 4) 4
