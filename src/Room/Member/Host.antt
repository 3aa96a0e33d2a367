-- ===== src/Room/Member/Host.antt =====
-- Which operations on the member table keep its host, and how far the next id moves.
use veilroom.Prelude.{
  Bytes, List, Text, [], arith, find, is_some, remove_first, succ64_lem, true, u64_mod, ℕ, ◌++◌,
  ◌+◌, ◌<◌, ◌∷◌, ◌≡◌, ◌≢◌, ◌≤◌, nat_eq, list_eq, pair_eq,
}
use veilroom.Event.{ConnectionId, MemberId}
use veilroom.Command.Color.{ColorChoice}
use veilroom.Room.Member.{Member, MemberTable, add, remove, set_color, recolor, by_id, has_id}
use veilroom.Room.Member.Unique.{new_member}

abbrev pub HasHost : MemberTable → Type 0
HasHost t = is_some (by_id t 0) ≡ true

host-remove :
    (id : MemberId) (ms : List Member)
    → id ≢ 0
    → is_some (find (has_id 0) ms) ≡ true
    → is_some (find (has_id 0) (remove_first (has_id id) ms)) ≡ true
host-remove id [] n h = h
host-remove id (m ∷ ms) n h = ground (arith, host-remove id ms n)

host-append :
    (ms : List Member) (m : Member)
    → is_some (find (has_id 0) ms) ≡ true
    → is_some (find (has_id 0) (ms ++ m ∷ [])) ≡ true
host-append [] m h = absurd cc
host-append (x ∷ ms) m h = ground (arith, host-append ms m)

host-recolor :
    (id : MemberId) (c : ColorChoice) (ms : List Member)
    → is_some (find (has_id 0) ms) ≡ true
    → is_some (find (has_id 0) (recolor id c ms)) ≡ true
unfolding recolor
host-recolor id c [] h = h
host-recolor id c (m ∷ ms) h = ground (arith, host-recolor id c ms)

pub host-add :
    (t : MemberTable) (c : ConnectionId) (n : Text) (ed x : Bytes) (epoch : ℕ)
    → is_some (by_id t 0) ≡ true
    → is_some (by_id (add t c n ed x epoch).0 0) ≡ true
unfolding add by_id
host-add t c n ed x epoch h = ground (arith, host-append t.members (new_member t c n ed x epoch) h)

pub next_id-add :
    (t : MemberTable) (c : ConnectionId) (n : Text) (ed x : Bytes) (epoch : ℕ)
    → t.next_id + 1 < u64_mod
    → (add t c n ed x epoch).0.next_id ≤ t.next_id + 1
unfolding add
next_id-add t c n ed x epoch h = ground (arith, succ64_lem t.next_id h)

pub host-remove_table :
    (t : MemberTable) (id : MemberId) → id ≢ 0 → HasHost t → HasHost (remove t id).0
unfolding remove by_id
host-remove_table t id n h = host-remove id t.members n h

pub host-set_color :
    (t : MemberTable) (id : MemberId) (c : ColorChoice) → HasHost t → HasHost (set_color t id c)
unfolding set_color by_id
host-set_color t id c h = host-recolor id c t.members h
