-- ===== src/Room/Connections/NonMembers.antt =====
-- The connections that are not a member's, after a removal.
use veilroom.Prelude.{[], arith, refl, without_one, ◌∷◌, ◌≡◌, nat_eq, list_eq, pair_eq}
use veilroom.Prelude.HashMap
use veilroom.Prelude.HashMap.{HashMap}
use veilroom.Event.{ConnectionId}
use veilroom.Room.Connections.{Connections, ConnectionEntry, non_members, non_member_ids, remove}

non_members-remove_key :
    (id : ConnectionId) (m : HashMap ConnectionId ConnectionEntry)
    → non_members (HashMap.remove id m) ≡ without_one id (non_members m)
unfolding non_members HashMap.remove
non_members-remove_key id [] = refl
non_members-remove_key id ((j, e) ∷ m) = ground (arith, non_members-remove_key id m)

pub non_members-remove :
    (known : Connections) (id : ConnectionId)
    → non_member_ids (remove known id).0 ≡ without_one id (non_member_ids known)
unfolding non_member_ids remove
non_members-remove known id = non_members-remove_key id known.entries
