-- ===== src/Room/Member/Unique.antt =====
-- What every operation on the member table keeps.
use veilroom.Prelude.{
  All, All-append, All-remove_first, Bytes, List, Text, [], any, arith, false, find, is_some,
  length, length-append, list_beq_iff, refl, remove_first, succ64_lem, u64_mod, ℕ, ◌++◌, ◌+◌, ◌<◌,
  ◌==◌, ◌∷◌, ◌≡◌, ◌≢◌, ◌≤◌, nat_eq, list_eq, pair_eq,
}
use veilroom.Event.{ConnectionId, MemberId}
use veilroom.Command.Color.{ColorChoice}
use veilroom.Command.Color
use veilroom.Room.Member.{
  Member, MemberTable, add, remove, set_color, recolor, has_id, has_nickname, has_connection,
  has_key,
}

-- No two members share an id, a nickname, a connection or a public key.
pub record Differs (m x : Member) : Type 0 where
  pub ids : m.member_id ≢ x.member_id
  pub nicknames : m.nickname ≢ x.nickname
  pub connections : m.connection ≢ x.connection
  pub ed25519 : m.ed25519_pubkey ≢ x.ed25519_pubkey
  pub x25519 : m.x25519_pubkey ≢ x.x25519_pubkey

abbrev pub Unique : List Member → Type 0
Unique [] = Unit
Unique (m ∷ ms) = All (Differs m) ms × Unique ms

-- The id was given out, and the host is the member with id 0 and nobody else.
pub record IsIssued (next_id : ℕ) (m : Member) : Type 0 where
  pub below : m.member_id < next_id
  pub host : m.is_host ≡ (m.member_id == 0)

pub record IsValid (t : MemberTable) : Type 0 where
  pub unique : Unique t.members
  pub issued : All (IsIssued t.next_id) t.members
  pub bounded : length t.members ≤ t.limit
  pub started : 0 < t.next_id

Unique-append :
    (ms : List Member) (m : Member) → Unique ms → All (λ x. Differs x m) ms → Unique (ms ++ m ∷ [])
Unique-append [] m u d = (tt, tt)
Unique-append (x ∷ ms) m u d =
    (All-append (Differs x) ms (m ∷ []) u.0 (d.0, tt), Unique-append ms m u.1 d.1)

IsIssued-raise : (n : ℕ) (ms : List Member) → All (IsIssued n) ms → All (IsIssued (n + 1)) ms
IsIssued-raise n [] h = tt
IsIssued-raise n (m ∷ ms) h =
    (record { below = omega (arith, h.0.below); host = h.0.host }, IsIssued-raise n ms h.1)

Differs-new :
    (m : Member) (ms : List Member)
    → any (has_nickname m.nickname) ms ≡ false
    → is_some (find (has_connection m.connection) ms) ≡ false
    → any (has_key m.ed25519_pubkey m.x25519_pubkey) ms ≡ false
    → All (IsIssued m.member_id) ms
    → All (λ x. Differs x m) ms
Differs-new m [] n c k i = tt
Differs-new m (x ∷ ms) n c k i = ground (
  arith,
  list_beq_iff x.nickname m.nickname,
  list_beq_iff x.ed25519_pubkey m.ed25519_pubkey,
  list_beq_iff x.x25519_pubkey m.x25519_pubkey,
  Differs-new m ms,
)

new_member-Unique :
    (t : MemberTable) (m : Member)
    → m.member_id ≡ t.next_id
    → any (has_nickname m.nickname) t.members ≡ false
    → is_some (find (has_connection m.connection) t.members) ≡ false
    → any (has_key m.ed25519_pubkey m.x25519_pubkey) t.members ≡ false
    → IsValid t
    → Unique (t.members ++ m ∷ [])
new_member-Unique t m e n c k v =
    Unique-append t.members m v.unique (Differs-new m t.members n c k (rw e v.issued))

Unique-remove : (id : ℕ) (ms : List Member) → Unique ms → Unique (remove_first (has_id id) ms)
Unique-remove id [] u = tt
Unique-remove id (m ∷ ms) u =
    ground (arith, Unique-remove id ms, All-remove_first (Differs m) (has_id id) ms)

pub data Call : Type 0 where
  adds : ConnectionId → Text → Bytes → Bytes → ℕ → Call
  removes : MemberId → Call
  recolors : MemberId → ColorChoice → Call

pub step : MemberTable → Call → MemberTable
step t (adds c n ed x epoch) = (add t c n ed x epoch).0
step t (removes id) = (remove t id).0
step t (recolors id color) = set_color t id color

abbrev pub new_member : MemberTable → ConnectionId → Text → Bytes → Bytes → ℕ → Member
new_member t c n ed x epoch = record {
  member_id = t.next_id;
  connection = c;
  nickname = n;
  color = Color.default;
  is_host = false;
  ed25519_pubkey = ed;
  x25519_pubkey = x;
  joined_epoch = epoch;
}

added-IsIssued :
    (t : MemberTable) (m : Member)
    → m.member_id ≡ t.next_id
    → m.is_host ≡ false
    → IsValid t
    → All (IsIssued (t.next_id + 1)) (t.members ++ m ∷ [])
added-IsIssued t m e h v =
    All-append (IsIssued (t.next_id + 1)) t.members (m ∷ [])
      (IsIssued-raise t.next_id t.members v.issued)
      (record { below = omega arith; host = ground (arith, v.started) }, tt)

length-remove_first-le :
    (id : ℕ) (ms : List Member) → length (remove_first (has_id id) ms) ≤ length ms
length-remove_first-le id [] = omega arith
length-remove_first-le id (m ∷ ms) = ground (arith, length-remove_first-le id ms)

length-recolor :
    (id : ℕ) (c : ColorChoice) (ms : List Member) → length (recolor id c ms) ≡ length ms
unfolding recolor
length-recolor id c [] = refl
length-recolor id c (m ∷ ms) = ground (arith, length-recolor id c ms)

Differs-recolor :
    (id : ℕ) (c : ColorChoice) (m : Member) (ms : List Member)
    → All (Differs m) ms
    → All (Differs m) (recolor id c ms)
unfolding recolor
Differs-recolor id c m [] d = tt
Differs-recolor id c m (x ∷ ms) d = ground (arith, Differs-recolor id c m ms)

Differs-color :
    (m : Member) (c : ColorChoice) (ms : List Member)
    → All (Differs m) ms
    → All (Differs (record m { color = c })) ms
Differs-color m c [] d = tt
Differs-color m c (x ∷ ms) d = ground (arith, Differs-color m c ms)

Unique-recolor :
    (id : ℕ) (c : ColorChoice) (ms : List Member) → Unique ms → Unique (recolor id c ms)
unfolding recolor
Unique-recolor id c [] u = tt
Unique-recolor id c (m ∷ ms) u =
    ground (arith, Unique-recolor id c ms, Differs-recolor id c m ms, Differs-color m c ms)

IsIssued-recolor :
    (id n : ℕ) (c : ColorChoice) (ms : List Member)
    → All (IsIssued n) ms
    → All (IsIssued n) (recolor id c ms)
unfolding recolor
IsIssued-recolor id n c [] i = tt
IsIssued-recolor id n c (m ∷ ms) i = ground (arith, IsIssued-recolor id n c ms)

pub add-IsValid :
    (t : MemberTable) (c : ConnectionId) (n : Text) (ed x : Bytes) (epoch : ℕ)
    → t.next_id + 1 < u64_mod
    → IsValid t
    → IsValid (add t c n ed x epoch).0
unfolding add
add-IsValid t c n ed x epoch w v =
    let m = new_member t c n ed x epoch in
    ground (
      arith,
      succ64_lem t.next_id w,
      new_member-Unique t m refl,
      added-IsIssued t m refl refl v,
      length-append t.members (m ∷ []),
    )

pub removed-IsValid : (t : MemberTable) (id : MemberId) → IsValid t → IsValid (remove t id).0
unfolding remove
removed-IsValid t id v = record {
  unique = Unique-remove id t.members v.unique;
  issued = All-remove_first (IsIssued t.next_id) (has_id id) t.members v.issued;
  bounded = omega (arith, length-remove_first-le id t.members, v.bounded);
  started = v.started;
}

pub recolored-IsValid :
    (t : MemberTable) (id : MemberId) (color : ColorChoice)
    → IsValid t
    → IsValid (set_color t id color)
unfolding set_color
recolored-IsValid t id color v = record {
  unique = Unique-recolor id color t.members v.unique;
  issued = IsIssued-recolor id t.next_id color t.members v.issued;
  bounded = omega (arith, length-recolor id color t.members, v.bounded);
  started = v.started;
}

-- While the id counter does not wrap, every operation, refused or not, keeps ids, nicknames,
-- connections and both public keys of the members pairwise distinct, the ids below the next one, the
-- host flag on member 0 alone, and the table within its limit.
pub member_step-IsValid :
    (t : MemberTable) (a : Call) → t.next_id + 1 < u64_mod → IsValid t → IsValid (step t a)
unfolding step
member_step-IsValid t (adds c n ed x epoch) w v = add-IsValid t c n ed x epoch w v
member_step-IsValid t (removes id) w v = removed-IsValid t id v
member_step-IsValid t (recolors id color) w v = recolored-IsValid t id color v
