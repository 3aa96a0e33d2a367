-- ===== src/Command/Meaning.antt =====
-- What a parsed line can be: which lines are chat, and which commands come out.
use veilroom.Prelude.{
  Bool, Bool-cases, Text, [], arith, false, inl, inr, nat_eq, refl, subst, true, ℕ, ◌==◌, ◌↔◌, ◌∷◌,
  ◌≡◌, ◌≢◌, list_eq, pair_eq,
}
use veilroom.Command.Line.{
  command, chat, SlashCommand, ParsedLine, Result, ok, err, ◌>>=◌, parse_line, parse_slash,
}

-- A line that is sent as chat, and the text that it is sent as.
pub data MeansChat (is_whitespace : ℕ → Bool) (line : Text) : Text → Type 0 where
  escaped : (rest : Text) → line ≡ b'/' ∷ b'/' ∷ rest → MeansChat is_whitespace line (b'/' ∷ rest)
  plain : (c : ℕ) (rest : Text) → line ≡ c ∷ rest → c ≢ b'/' → MeansChat is_whitespace line line
  spaced :
      (c : ℕ) (rest : Text)
      → line ≡ b'/' ∷ c ∷ rest
      → c ≢ b'/'
      → is_whitespace c ≡ true
      → MeansChat is_whitespace line line

module _ (is_whitespace : ℕ → Bool) where
  command-ne-chat :
      (r : Result SlashCommand) (t : Text) → (r >>= (λ c. ok (command c))) ≡ ok (chat t) → ⊥
  command-ne-chat (ok c) t h = cc
  command-ne-chat (err e) t h = cc

  parse_slash-ne-chat : (rest t : Text) → parse_slash is_whitespace rest ≡ ok (chat t) → ⊥
  unfolding parse_slash
  parse_slash-ne-chat rest t h = command-ne-chat _ t h

  -- A chat line keeps its text, but for the first slash of two.
  same_text :
      (line t u : Text)
      → ◌≡◌ {A = Result ParsedLine} (ok (chat u)) (ok (chat t))
      → MeansChat is_whitespace line u
      → MeansChat is_whitespace line t
  same_text line t u h m = let same : u ≡ t = cc in subst (MeansChat is_whitespace line) same m

  is_slash : (c : ℕ) → (c == b'/') ≡ true → c ≡ b'/'
  is_slash c h = ground (arith, nat_eq.eq_iff c b'/')

  not_slash : (c : ℕ) → (c == b'/') ≡ false → c ≢ b'/'
  not_slash c h e = absurd (ground (arith, nat_eq.eq_iff c b'/'))

  after_slash :
      (d : ℕ) (rest t : Text)
      → (d == b'/') ≡ false
      → parse_line is_whitespace (b'/' ∷ d ∷ rest) ≡ ok (chat t)
      → MeansChat is_whitespace (b'/' ∷ d ∷ rest) t
  unfolding parse_line
  after_slash d rest t other h = elim (Bool-cases (is_whitespace d)) [
    | inl blank ↦
        same_text _ t (b'/' ∷ d ∷ rest) (rw (other, blank) at h)
          (spaced d rest refl (not_slash d other) blank)
    | inr solid ↦ absurd (parse_slash-ne-chat (d ∷ rest) t (rw (other, solid) at h))
  ]

  chats-MeansChat :
      (line t : Text) → parse_line is_whitespace line ≡ ok (chat t) → MeansChat is_whitespace line t
  unfolding parse_line
  chats-MeansChat [] t h = absurd cc
  chats-MeansChat (c ∷ []) t h = elim (Bool-cases (c == b'/')) [
    | inl slash ↦ absurd (parse_slash-ne-chat [] t (rw slash at h))
    | inr other ↦ same_text _ t (c ∷ []) (rw other at h) (plain c [] refl (not_slash c other))
  ]
  chats-MeansChat (c ∷ d ∷ rest) t h = elim (Bool-cases (c == b'/')) [
    | inl slash ↦ elim (Bool-cases (d == b'/')) [
      | inl two ↦
          same_text _ t (b'/' ∷ rest) (rw (slash, two) at h)
            (escaped rest (cc (is_slash c slash, is_slash d two)))
      | inr other ↦
          let first = is_slash c slash in rw first (after_slash d rest t other (rw first at h))
    ]
    | inr other ↦
        same_text _ t (c ∷ d ∷ rest) (rw other at h) (plain c (d ∷ rest) refl (not_slash c other))
  ]

  MeansChat-chats :
      (line t : Text) → MeansChat is_whitespace line t → parse_line is_whitespace line ≡ ok (chat t)
  unfolding parse_line
  MeansChat-chats line t (escaped rest e) = rw e refl
  MeansChat-chats line t (plain c [] e n) = rw e (ground (arith, nat_eq.eq_iff c b'/'))
  MeansChat-chats line t (plain c (d ∷ rest) e n) = rw e (ground (arith, nat_eq.eq_iff c b'/'))
  MeansChat-chats line t (spaced c rest e n w) = rw e (ground (arith, nat_eq.eq_iff c b'/'))

-- A line is sent as chat exactly when it is not empty and begins with no slash, or with a slash and
-- whitespace, and then as it stands, or when it begins with two slashes, and then without the first of
-- them. Every other line that begins with a slash is a command or an error, never chat.
pub parse_line-chat_iff :
    (is_whitespace : ℕ → Bool) (line t : Text)
    → (parse_line is_whitespace line ≡ ok (chat t)) ↔ MeansChat is_whitespace line t
parse_line-chat_iff is_whitespace line t =
    (chats-MeansChat is_whitespace line t, MeansChat-chats is_whitespace line t)
