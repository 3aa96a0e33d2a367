-- ===== src/Room/Member/Admit.antt =====
-- What the table answers to an admission.
use veilroom.Prelude.{
  All, Bytes, List, Text, [], any, ap, arith, false, find, is_some, length-append, list_beq_iff,
  none, refl, remove_first, some, subst, succ64_lem, u64_mod, ℕ, ◌++◌, ◌+◌, ◌<◌, ◌↔◌, ◌∷◌, ◌≡◌,
  nat_eq, list_eq, pair_eq,
}
use veilroom.Event.{ConnectionId}
use veilroom.Room.Member.{
  Member, MemberError, MemberTable, Result, ok, err, add, remove, by_id, has_id, has_nickname,
  has_connection, has_key,
}
use veilroom.Room.Member.Unique.{IsValid, IsIssued, Unique, Differs, new_member, add-IsValid}

find_issued : (id : ℕ) (ms : List Member) → All (IsIssued id) ms → find (has_id id) ms ≡ none
find_issued id [] h = refl
find_issued id (m ∷ ms) h = ground (arith, find_issued id ms)

find-append_fresh :
    (id : ℕ) (ms : List Member) (m : Member)
    → m.member_id ≡ id
    → All (IsIssued id) ms
    → (find (has_id id) (ms ++ m ∷ []) ≡ some m) × (remove_first (has_id id) (ms ++ m ∷ []) ≡ ms)
find-append_fresh id [] m e h = ground arith
find-append_fresh id (x ∷ ms) m e h = ground (arith, find-append_fresh id ms m e)

old-Differs : (ms : List Member) (m : Member) → Unique (ms ++ m ∷ []) → All (λ x. Differs x m) ms
old-Differs [] m u = tt
old-Differs (x ∷ ms) m u = (last_of ms u.0, old-Differs ms m u.1)
  where
    last_of : (xs : List Member) → All (Differs x) (xs ++ m ∷ []) → Differs x m
    last_of [] d = d.0
    last_of (y ∷ xs) d = last_of xs d.1

no_clash :
    (m : Member) (ms : List Member)
    → All (λ x. Differs x m) ms
    → (any (has_nickname m.nickname) ms ≡ false)
      × (is_some (find (has_connection m.connection) ms) ≡ false)
      × (any (has_key m.ed25519_pubkey m.x25519_pubkey) ms ≡ false)
no_clash m [] d = (refl, refl, refl)
no_clash m (x ∷ ms) d = ground (
  arith,
  list_beq_iff x.nickname m.nickname,
  list_beq_iff x.ed25519_pubkey m.ed25519_pubkey,
  list_beq_iff x.x25519_pubkey m.x25519_pubkey,
  no_clash m ms d.1,
)

abbrev pub extended : MemberTable → Member → MemberTable
extended t m = record t { next_id = t.next_id + 1; members = t.members ++ m ∷ [] }

-- Over a valid table whose id counter does not wrap, an application is admitted exactly when the table
-- with the new member at its end is valid: that member has the next id, is no host and has the default
-- colour. A refusal leaves the table as it was.
pub add_iff :
    (t : MemberTable) (c : ConnectionId) (n : Text) (ed x : Bytes) (epoch : ℕ)
    → t.next_id + 1 < u64_mod
    → IsValid t
    → let m = new_member t c n ed x epoch in
      (((add t c n ed x epoch) ≡ (extended t m, ok m)) ↔ IsValid (extended t m))
      × ((e : MemberError) → (add t c n ed x epoch).1 ≡ err e → (add t c n ed x epoch).0 ≡ t)
unfolding add
add_iff t c n ed x epoch w v =
    let m = new_member t c n ed x epoch in
    (
      (
        λ h.
            subst IsValid (ap (λ (r : MemberTable × Result Member). r.0) h)
              (add-IsValid t c n ed x epoch w v),
        (λ u. ground (
          arith,
          succ64_lem t.next_id w,
          u.bounded,
          length-append t.members (m ∷ []),
          no_clash m t.members (old-Differs t.members m u.unique),
        )),
      ),
      (λ e h. ground arith),
    )

-- A member that was just admitted is found under its id, and its removal restores the earlier members.
pub by_id-add :
    (t : MemberTable) (c : ConnectionId) (n : Text) (ed x : Bytes) (epoch : ℕ) (m : Member)
    → IsValid t
    → (add t c n ed x epoch).1 ≡ ok m
    → (by_id (add t c n ed x epoch).0 m.member_id ≡ some m)
      × ((remove (add t c n ed x epoch).0 m.member_id).0.members ≡ t.members)
unfolding add by_id remove
by_id-add t c n ed x epoch m v h =
    ground
      (arith, find-append_fresh t.next_id t.members (new_member t c n ed x epoch) refl v.issued)
