-- ===== src/Validation/Spaces.antt =====
-- The spaces of an accepted nickname.
use veilroom.Prelude.{
  Bool, Bool-cases, Text, [], all, ap, arith, false, if◌then◌else◌, inl, inr, length, nat_eq, not,
  refl, subst, sym, true, ℕ, ◌&&◌, ◌++◌, ◌==◌, ◌∙◌, ◌∷◌, ◌≡◌, ◌≤◌, ◌⊎◌, list_eq, pair_eq,
}
use mathlib.Core.List.{append_assoc, append-nil}
use veilroom.Limits.{Limits}
use veilroom.Validation.{
  push_word, collapse_from, collapse_spaces, check_normalized, check_composed, validate_nickname,
  ok,
}

-- No space at either end and no two in a row; `spaced` says that a space, or nothing, stands before.
abbrev pub is_tidy : Bool → Text → Bool
is_tidy spaced [] = not spaced
is_tidy spaced (c ∷ cs) = if c == 0x20 then not spaced && is_tidy true cs else is_tidy false cs

abbrev is_word : Text → Bool
is_word w = all (λ c. not (c == 0x20)) w

-- Nothing, or a tidy text.
abbrev IsOutput : Text → Type 0
IsOutput t = (t ≡ []) ⊎ (is_tidy true t ≡ true)

is_tidy-word : (p : Bool) (c : ℕ) (cs : Text) → is_word (c ∷ cs) ≡ true → is_tidy p (c ∷ cs) ≡ true
is_tidy-word p c [] h = ground arith
is_tidy-word p c (d ∷ cs) h = ground (arith, is_tidy-word false d cs)

is_tidy-append :
    (p : Bool) (out word : Text)
    → is_tidy p out ≡ true
    → is_tidy true word ≡ true
    → is_tidy p (out ++ 0x20 ∷ word) ≡ true
is_tidy-append p [] word o w = ground arith
is_tidy-append p (c ∷ out) word o w =
    ground (arith, is_tidy-append true out word, is_tidy-append false out word)

push_word-IsOutput :
    (out word : Text) → IsOutput out → is_word word ≡ true → IsOutput (push_word out word)
unfolding push_word
push_word-IsOutput out [] o w = o
push_word-IsOutput [] (c ∷ cs) o w = inr (is_tidy-word true c cs w)
push_word-IsOutput (d ∷ out) (c ∷ cs) (inl e) w = absurd cc
push_word-IsOutput (d ∷ out) (c ∷ cs) (inr t) w =
    inr (is_tidy-append true (d ∷ out) (c ∷ cs) t (is_tidy-word true c cs w))

is_word-append :
    (w : Text) (c : ℕ) → is_word w ≡ true → (c == 0x20) ≡ false → is_word (w ++ c ∷ []) ≡ true
is_word-append [] c h n = ground arith
is_word-append (d ∷ w) c h n = ground (arith, is_word-append w c)

collapse_from-IsOutput :
    (out word input : Text)
    → IsOutput out
    → is_word word ≡ true
    → IsOutput (collapse_from out word input)
unfolding collapse_from
collapse_from-IsOutput out word [] o w = push_word-IsOutput out word o w
collapse_from-IsOutput out word (c ∷ cs) o w = elim (Bool-cases (c == 0x20)) [
  | inl e ↦
      rw e
        (collapse_from-IsOutput (push_word out word) [] cs (push_word-IsOutput out word o w) refl)
  | inr e ↦ rw e (collapse_from-IsOutput out (word ++ c ∷ []) cs o (is_word-append word c w e))
]

-- A word, with what was written before it.
abbrev joined : Text → Text → Text
joined [] w = w
joined (c ∷ out) w = (c ∷ out) ++ 0x20 ∷ w

abbrev is_nil : Text → Bool
is_nil [] = true
is_nil (c ∷ cs) = false

push_word-joined : (out word : Text) → is_nil word ≡ false → push_word out word ≡ joined out word
unfolding push_word
push_word-joined out [] h = absurd cc
push_word-joined [] (c ∷ cs) h = refl
push_word-joined (d ∷ out) (c ∷ cs) h = refl

joined-push_word :
    (out word rest : Text)
    → is_nil word ≡ false
    → joined (push_word out word) rest ≡ joined out (word ++ 0x20 ∷ rest)
unfolding push_word
joined-push_word out [] rest h = absurd cc
joined-push_word [] (c ∷ cs) rest h = refl
joined-push_word (d ∷ out) (c ∷ cs) rest h = append_assoc (d ∷ out) (0x20 ∷ c ∷ cs) (0x20 ∷ rest)

is_nil-append : (w : Text) (c : ℕ) → is_nil (w ++ c ∷ []) ≡ false
is_nil-append [] c = refl
is_nil-append (d ∷ w) c = refl

collapse_from-tidy :
    (out word rest : Text)
    → is_tidy (is_nil word) rest ≡ true
    → collapse_from out word rest ≡ joined out (word ++ rest)
unfolding collapse_from
collapse_from-tidy out word [] h =
    push_word-joined out word (ground arith) ∙ ap (joined out) (sym (append-nil word))
collapse_from-tidy out word (c ∷ cs) h = elim (Bool-cases (c == 0x20)) [
  | inl e ↦
      let space = (nat_eq.eq_iff c 0x20).0 e in
      let nonempty : is_nil word ≡ false = ground arith in
      let tidy : is_tidy true cs ≡ true = ground arith in
      rw e (
        collapse_from-tidy (push_word out word) [] cs tidy
        ∙ joined-push_word out word cs nonempty
        ∙ ap (λ x. joined out (word ++ x ∷ cs)) (sym space))
  | inr e ↦
      let tidy : is_tidy false cs ≡ true = ground arith in
      rw e (
        collapse_from-tidy out (word ++ c ∷ []) cs
          (subst (λ b. is_tidy b cs ≡ true) (sym (is_nil-append word c)) tidy)
        ∙ ap (joined out) (append_assoc word (c ∷ []) cs))
]

check_composed-tidy :
    (ws : ℕ → Bool) (t n : Text) (l : Limits)
    → check_composed ws t l ≡ ok n
    → (n ≡ collapse_spaces t) × (length n ≤ l.max_nickname_scalars) × (is_nil n ≡ false)
unfolding check_composed check_normalized
check_composed-tidy ws t n l h = checked (collapse_spaces t) (ground arith)
  where
    checked :
        (s : Text)
        → check_normalized s l ≡ ok n
        → (n ≡ s) × (length n ≤ l.max_nickname_scalars) × (is_nil n ≡ false)
    checked [] e = absurd cc
    checked (c ∷ s) e = ground arith

-- A nickname that is accepted has at least one scalar value and at most the limit, no space at either
-- end and no two spaces in a row; and collapsing the spaces of any such nickname changes nothing.
pub validate_nickname-is_tidy :
    (nfc : Text → Text) (ws : ℕ → Bool) (input n : Text) (l : Limits)
    → validate_nickname nfc ws input l ≡ ok n
    → (is_tidy true n ≡ true)
      × (1 ≤ length n)
      × (length n ≤ l.max_nickname_scalars)
      × (collapse_spaces n ≡ n)
unfolding validate_nickname collapse_spaces
validate_nickname-is_tidy nfc ws [] n l h = absurd cc
validate_nickname-is_tidy nfc ws (c ∷ cs) n l h =
    let (same, bounded, nonempty) = check_composed-tidy ws (nfc (c ∷ cs)) n l h in
    let tidy =
      output n nonempty
        (subst IsOutput (sym same) (collapse_from-IsOutput [] [] (nfc (c ∷ cs)) (inl refl) refl)) in
    (tidy, at_least n nonempty, bounded, collapse_from-tidy [] [] n tidy)
  where
    output : (t : Text) → is_nil t ≡ false → IsOutput t → is_tidy true t ≡ true
    output t f (inl e) = absurd (ground arith)
    output t f (inr tidy) = tidy

    at_least : (t : Text) → is_nil t ≡ false → 1 ≤ length t
    at_least [] f = absurd cc
    at_least (d ∷ ds) f = omega arith
