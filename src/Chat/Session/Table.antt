-- ===== src/Chat/Session/Table.antt =====
-- The members that a session knows: however the room and its members act, they stay different.
use veilroom.Prelude.{
  All, All-append, All-retain, Bool, List, Text, [], any, arith, false, refl, retain, ℕ, ◌++◌, ◌==◌,
  ◌||◌, ◌∷◌, ◌≡◌, nat_eq, list_eq, pair_eq,
}
use veilroom.Limits
use veilroom.Validation.{validate_nickname}
use veilroom.Chat.Session.{MemberView, ok, valid}

-- Two members share an id, a nickname or a key.
abbrev pub clashes : MemberView → MemberView → Bool
clashes q m =
    q.member_id == m.member_id || q.nickname == m.nickname || q.ed25519_pubkey == m.ed25519_pubkey

-- No two members clash.
abbrev pub IsApart : List MemberView → Type 0
IsApart [] = Unit
IsApart (m ∷ ms) = (any (clashes m) ms ≡ false) × IsApart ms

any-snoc :
    (m q : MemberView) (ms : List MemberView)
    → any (clashes q) ms ≡ false
    → clashes q m ≡ false
    → any (clashes q) (ms ++ m ∷ []) ≡ false
any-snoc m q [] h k = ground arith
any-snoc m q (x ∷ ms) h k = ground (arith, any-snoc m q ms)

IsApart-snoc :
    (ms : List MemberView) (m : MemberView)
    → IsApart ms
    → any (λ q. clashes q m) ms ≡ false
    → IsApart (ms ++ m ∷ [])
IsApart-snoc [] m a h = (refl, tt)
IsApart-snoc (x ∷ ms) m a h =
    (any-snoc m x ms a.0 (ground arith), IsApart-snoc ms m a.1 (ground arith))

any-retain :
    (p test : MemberView → Bool) (ms : List MemberView)
    → any test ms ≡ false
    → any test (retain p ms) ≡ false
any-retain p test [] h = refl
any-retain p test (x ∷ ms) h = ground (arith, any-retain p test ms)

IsApart-retain : (p : MemberView → Bool) (ms : List MemberView) → IsApart ms → IsApart (retain p ms)
IsApart-retain p [] a = tt
IsApart-retain p (x ∷ ms) a =
    ground (arith, any-retain p (clashes x) ms a.0, IsApart-retain p ms a.1)

module _ (nfc : Text → Text) (is_whitespace : ℕ → Bool) where
  -- A valid nickname, and the host flag exactly on member 0.
  abbrev pub IsProper : MemberView → Type 0
  IsProper m =
      (valid (validate_nickname nfc is_whitespace m.nickname Limits.default) ≡ ok tt)
      × (m.is_host ≡ m.member_id == 0)

  -- The members are different, and each is proper.
  pub record IsTable (ms : List MemberView) : Type 0 where
    pub apart : IsApart ms
    pub proper : All IsProper ms

  pub IsTable-snoc :
      (ms : List MemberView) (m : MemberView)
      → IsTable ms
      → any (λ q. clashes q m) ms ≡ false
      → IsProper m
      → IsTable (ms ++ m ∷ [])
  IsTable-snoc ms m t fresh ok_name = record {
    apart = IsApart-snoc ms m t.apart fresh;
    proper = All-append IsProper ms (m ∷ []) t.proper (ok_name, tt);
  }

  pub IsTable-retain :
      (p : MemberView → Bool) (ms : List MemberView) → IsTable ms → IsTable (retain p ms)
  IsTable-retain p ms t = record {
    apart = IsApart-retain p ms t.apart;
    proper = All-retain IsProper p ms t.proper;
  }
