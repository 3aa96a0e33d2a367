-- ===== src/Prelude/Splits.antt =====
-- `find`, `split_once`, `rsplit_once` and `split` of `str`, and `starts_with`.
use Prim.Native.Nat.{ℕ}
use mathlib.Core.Path.{◌≡◌, refl, sym, ap, ◌∙◌}
use mathlib.Core.Bool.{Bool, false, ◌||◌}
use mathlib.Core.List.{List, [], ◌∷◌, ◌++◌, reverse, reverse-append, reverse-reverse}
use mathlib.Core.Option.{Option, none, some}
use native.Mathlib.Omega.{arith}
use veilroom.Prelude.Tests.{if◌then◌else◌, ◌==◌, and_then, Option-cases}
use veilroom.Prelude.Equality.{nat_eq}
use mathlib.Core.Logic.{inl, inr}
use veilroom.Prelude.Lists.{any}
use veilroom.Prelude.Texts.{Text}

-- `contains` of a character.
abbrev pub has_char : ℕ → Text → Bool
has_char sep t = any (λ c. c == sep) t

before : ℕ → Option (Text × Text) → Option (Text × Text)
before c none = none
before c (some (front, back)) = some (c ∷ front, back)

-- At the first occurrence, which is left out.
unfoldable pub split_once : ℕ → Text → Option (Text × Text)
unfolding before
split_once sep [] = none
split_once sep (c ∷ cs) = if c == sep then some ([], cs) else before c (split_once sep cs)

-- At the last occurrence.
unfoldable pub rsplit_once : ℕ → Text → Option (Text × Text)
rsplit_once sep [] = none
rsplit_once sep (c ∷ cs) = elim (rsplit_once sep cs) [
  | some (front, back) ↦ some (c ∷ front, back)
  | none ↦ if c == sep then some ([], cs) else none
]

-- `strip_prefix`.
unfoldable pub strip_prefix : Text → Text → Option Text
strip_prefix [] t = some t
strip_prefix (p ∷ ps) [] = none
strip_prefix (p ∷ ps) (c ∷ cs) = if p == c then strip_prefix ps cs else none

-- `strip_suffix`.
unfoldable pub strip_suffix : Text → Text → Option Text
unfolding strip_prefix
strip_suffix suffix t =
    and_then (strip_prefix (reverse suffix) (reverse t)) (λ body. some (reverse body))

-- At the first occurrence of a text.
split_here : ℕ → Option Text → Option (Text × Text) → Option (Text × Text)
unfolding before
split_here c (some rest) later = some ([], rest)
split_here c none later = before c later

unfoldable pub split_at_text : Text → Text → Option (Text × Text)
unfolding split_here strip_prefix
split_at_text delimiter [] = none
split_at_text delimiter (c ∷ cs) =
    split_here c (strip_prefix delimiter (c ∷ cs)) (split_at_text delimiter cs)

push_first : ℕ → List Text → List Text
push_first c [] = (c ∷ []) ∷ []
push_first c (t ∷ ts) = (c ∷ t) ∷ ts

-- The parts between the separators, empty ones included.
unfoldable pub split : ℕ → Text → List Text
unfolding push_first
split sep [] = [] ∷ []
split sep (c ∷ cs) = if c == sep then [] ∷ split sep cs else push_first c (split sep cs)

module _ (sep : ℕ) where
  pub split_once-append :
      (t rest : Text) → has_char sep t ≡ false → split_once sep (t ++ sep ∷ rest) ≡ some (t, rest)
  unfolding split_once
  split_once-append [] rest h = ground arith
  split_once-append (c ∷ t) rest h = ground (arith, split_once-append t rest)

  rsplit_once-none : (t : Text) → has_char sep t ≡ false → rsplit_once sep t ≡ none
  unfolding rsplit_once
  rsplit_once-none [] h = refl
  rsplit_once-none (c ∷ t) h = ground (arith, rsplit_once-none t)

  pub rsplit_once-append :
      (t rest : Text)
      → has_char sep rest ≡ false
      → rsplit_once sep (t ++ sep ∷ rest) ≡ some (t, rest)
  unfolding rsplit_once
  rsplit_once-append [] rest h = ground (arith, rsplit_once-none rest h)
  rsplit_once-append (c ∷ t) rest h = ground (arith, rsplit_once-append t rest h)

  pub split-none : (t : Text) → has_char sep t ≡ false → split sep t ≡ t ∷ []
  unfolding split
  split-none [] h = refl
  split-none (c ∷ t) h = ground (arith, split-none t)

  pub has_char-append : (s t : Text) → has_char sep (s ++ t) ≡ has_char sep s || has_char sep t
  has_char-append [] t = refl
  has_char-append (c ∷ s) t = ground (arith, has_char-append s t)

strip_prefix-eq : (p t rest : Text) → strip_prefix p t ≡ some rest → t ≡ p ++ rest
unfolding strip_prefix
strip_prefix-eq [] t rest h = cc
strip_prefix-eq (a ∷ p) [] rest h = absurd cc
strip_prefix-eq (a ∷ p) (c ∷ t) rest h =
    let found : a ≡ c = ground (arith, nat_eq.eq_iff a c) in
    let later : t ≡ p ++ rest = strip_prefix-eq p t rest (ground arith) in cc

-- What is stripped of a suffix is the text before it.
pub strip_suffix-eq :
    (suffix t body : Text) → strip_suffix suffix t ≡ some body → t ≡ body ++ suffix
unfolding strip_suffix
strip_suffix-eq suffix t body h = elim (Option-cases (strip_prefix (reverse suffix) (reverse t))) [
  | inl no_suffix ↦ absurd (ground arith)
  | inr (rest, found) ↦
      let its_body : reverse rest ≡ body = ground arith in
      sym (reverse-reverse t)
      ∙ ap reverse (strip_prefix-eq (reverse suffix) (reverse t) rest found)
      ∙ reverse-append (reverse suffix) rest
      ∙ rw (reverse-reverse suffix, its_body) refl
]
