-- ===== src/Chat/Session/Install.antt =====
-- The direct changes of a session's table. The application installs the host's own view (src/app.rs)
-- and a known member in a new colour (src/app.rs, src/admission/client.rs): these fit the table.
use veilroom.Prelude.{
  All, Bool, Bool-cases, List, Option, Text, [], any, arith, beq_comm, beq_self, false, find, inl,
  inr, nat_eq, none, not, refl, some, true, ℕ, ◌&&◌, ◌==◌, ◌∷◌, ◌≡◌, list_eq, pair_eq,
}
use veilroom.Command.Color.{ColorChoice}
use veilroom.Event.{MemberId}
use veilroom.Chat.Session.{
  remove_member, ChatSession, MemberView, install_member, member, replace_view,
}
use veilroom.Chat.Session.Table.{IsTable-snoc, IsTable-retain, IsTable, IsProper, clashes, IsApart}

-- The member's view in the colour.
abbrev pub in_color : MemberView → ColorChoice → MemberView
in_color m color = record m { color = color }

recolored_view : ChatSession → ColorChoice → Option MemberView → ChatSession
recolored_view s color none = s
recolored_view s color (some m) = install_member s (in_color m color)

-- `set_own_color`, and what the receivers of a colour do: the member, if it is known, is installed again
-- in its new colour.
unfoldable pub recolor_member : ChatSession → MemberId → ColorChoice → ChatSession
unfolding recolored_view
recolor_member s id color = recolored_view s color (member s id)

-- A member other than `v` shares the nickname or the key of `v`.
abbrev pub rivals : MemberView → MemberView → Bool
rivals v q = not (q.member_id == v.member_id) && clashes q v

clashes_comm : (a b : MemberView) → clashes a b ≡ clashes b a
clashes_comm a b =
    rw
      (
        beq_comm a.member_id b.member_id,
        beq_comm a.nickname b.nickname,
        beq_comm a.ed25519_pubkey b.ed25519_pubkey,
      )
      refl

any-replace :
    (x v : MemberView) (ms : List MemberView)
    → any (clashes x) ms ≡ false
    → clashes x v ≡ false
    → any (clashes x) (replace_view ms v) ≡ false
unfolding replace_view
any-replace x v [] h k = refl
any-replace x v (m ∷ ms) h k = ground (arith, any-replace x v ms)

any-clashes :
    (x v : MemberView) (ms : List MemberView)
    → (x.member_id == v.member_id) ≡ true
    → any (clashes x) ms ≡ false
    → any (rivals v) ms ≡ false
    → any (clashes v) ms ≡ false
any-clashes x v [] e a h = refl
any-clashes x v (q ∷ ms) e a h = ground (
  arith,
  any-clashes x v ms e,
  clashes_comm v q,
  nat_eq.eq_iff x.member_id v.member_id,
  beq_comm v.member_id q.member_id,
)

replace_view-IsApart :
    (v : MemberView) (ms : List MemberView)
    → IsApart ms
    → any (rivals v) ms ≡ false
    → IsApart (replace_view ms v)
unfolding replace_view
replace_view-IsApart v [] a h = tt
replace_view-IsApart v (m ∷ ms) a h = elim (Bool-cases (m.member_id == v.member_id)) [
  | inl same ↦ rw same (any-clashes m v ms same a.0 (ground arith), a.1)
  | inr other ↦
      rw other (any-replace m v ms a.0 (ground arith), replace_view-IsApart v ms a.1 (ground arith))
]

-- The member that is found for an id has no rivals.
any-find :
    (x m : MemberView) (id : MemberId) (ms : List MemberView)
    → any (clashes x) ms ≡ false
    → find (λ q. q.member_id == id) ms ≡ some m
    → clashes x m ≡ false
any-find x m id [] h f = absurd cc
any-find x m id (q ∷ ms) h f = ground (arith, any-find x m id ms)

no_rivals :
    (m : MemberView) (ms : List MemberView) → any (clashes m) ms ≡ false → any (rivals m) ms ≡ false
no_rivals m [] h = refl
no_rivals m (q ∷ ms) h = ground (arith, no_rivals m ms, clashes_comm m q)

find-rivals :
    (m : MemberView) (id : MemberId) (ms : List MemberView)
    → IsApart ms
    → find (λ q. q.member_id == id) ms ≡ some m
    → any (rivals m) ms ≡ false
find-rivals m id [] a f = refl
find-rivals m id (x ∷ ms) a f = elim (Bool-cases (x.member_id == id)) [
  | inl same ↦
      let first : x ≡ m = ground arith in ground (arith, no_rivals x ms a.0, beq_self x.member_id)
  | inr other ↦ ground (arith, find-rivals m id ms a.1, any-find x m id ms a.0)
]

module _ (nfc : Text → Text) (is_whitespace : ℕ → Bool) where
  -- A view that may be installed: a proper one without rivals.
  abbrev pub IsFit : ChatSession → MemberView → Type 0
  IsFit s v = IsProper nfc is_whitespace v × (any (rivals v) s.members ≡ false)

  replace_view-IsProper :
      (v : MemberView) (ms : List MemberView)
      → IsProper nfc is_whitespace v
      → All (IsProper nfc is_whitespace) ms
      → All (IsProper nfc is_whitespace) (replace_view ms v)
  unfolding replace_view
  replace_view-IsProper v [] proper all_proper = tt
  replace_view-IsProper v (m ∷ ms) proper all_proper =
      ground (arith, replace_view-IsProper v ms proper all_proper.1)

  fresh-clashes :
      (v : MemberView) (ms : List MemberView)
      → any (λ q. q.member_id == v.member_id) ms ≡ false
      → any (rivals v) ms ≡ false
      → any (λ q. clashes q v) ms ≡ false
  fresh-clashes v [] new h = refl
  fresh-clashes v (q ∷ ms) new h = ground (arith, fresh-clashes v ms)

  pub install_member-IsTable :
      (s : ChatSession) (v : MemberView)
      → IsTable nfc is_whitespace s.members
      → IsFit s v
      → IsTable nfc is_whitespace (install_member s v).members
  unfolding install_member
  install_member-IsTable s v t (proper, no_rival) =
      elim (Bool-cases (any (λ q. q.member_id == v.member_id) s.members)) [
        | inl known ↦ rw known (record {
          apart = replace_view-IsApart v s.members t.apart no_rival;
          proper = replace_view-IsProper v s.members proper t.proper;
        })
        | inr new ↦ rw new (
            IsTable-snoc nfc is_whitespace s.members v t (fresh-clashes v s.members new no_rival)
              proper)
      ]

  find-IsProper :
      (m : MemberView) (id : MemberId) (ms : List MemberView)
      → All (IsProper nfc is_whitespace) ms
      → find (λ q. q.member_id == id) ms ≡ some m
      → IsProper nfc is_whitespace m
  find-IsProper m id [] a f = absurd cc
  find-IsProper m id (x ∷ ms) a f = ground (arith, find-IsProper m id ms a.1)

  recolored_view-IsTable :
      (s : ChatSession) (id : MemberId) (color : ColorChoice) (o : Option MemberView)
      → find (λ q. q.member_id == id) s.members ≡ o
      → IsTable nfc is_whitespace s.members
      → IsTable nfc is_whitespace (recolored_view s color o).members
  unfolding recolored_view
  recolored_view-IsTable s id color none f t = t
  recolored_view-IsTable s id color (some m) f t =
      install_member-IsTable s (in_color m color) t
        (find-IsProper m id s.members t.proper f, find-rivals m id s.members t.apart f)

  pub recolor_member-IsTable :
      (s : ChatSession) (id : MemberId) (color : ColorChoice)
      → IsTable nfc is_whitespace s.members
      → IsTable nfc is_whitespace (recolor_member s id color).members
  unfolding recolor_member member
  recolor_member-IsTable s id color t = recolored_view-IsTable s id color (member s id) refl t

  pub remove_member-IsTable :
      (s : ChatSession) (id : MemberId)
      → IsTable nfc is_whitespace s.members
      → IsTable nfc is_whitespace (remove_member s id).members
  unfolding remove_member
  remove_member-IsTable s id t =
      IsTable-retain nfc is_whitespace (λ m. not (m.member_id == id)) s.members t
