-- ===== src/Ui/Input/Cursor.antt =====
-- The cursor of a text field stands between two characters: the two halves of the text at the
-- cursor, and where the neighbours of the cursor begin.
use veilroom.Prelude.{
  Text, [], ap, arith, refl, reverse, some, ℕ, ◌++◌, ◌+◌, ◌-◌, ◌<◌, ◌∙◌, ◌∷◌, ◌≡◌,
}
use mathlib.Core.List.{reverse-cons}
use veilroom.Prelude.Texts.{len_utf8, utf8_len}
use veilroom.Ui.Input.{slices, last_index, drain}

pub len_utf8-pos : (c : ℕ) → 0 < len_utf8 c
unfolding len_utf8
len_utf8-pos c = ground arith

pub utf8_len-append : (a b : Text) → utf8_len (a ++ b) ≡ utf8_len a + utf8_len b
unfolding utf8_len
utf8_len-append [] b = omega arith
utf8_len-append (c ∷ a) b = omega (arith, utf8_len-append a b)

pub utf8_len-reverse : (a : Text) → utf8_len (reverse a) ≡ utf8_len a
unfolding utf8_len
utf8_len-reverse [] = refl
utf8_len-reverse (c ∷ a) =
    ap utf8_len (reverse-cons c a)
    ∙ utf8_len-append (reverse a) (c ∷ [])
    ∙ omega (arith, utf8_len-reverse a)

pub slices-append :
    (before rest : Text) → slices (before ++ rest) (utf8_len before) ≡ some (before, rest)
unfolding slices utf8_len
slices-append [] [] = refl
slices-append [] (c ∷ rest) = refl
slices-append (c ∷ before) rest = ground (arith, len_utf8-pos c, slices-append before rest)

pub last_index-append : (before : Text) (c : ℕ) → last_index (before ++ c ∷ []) ≡ utf8_len before
unfolding last_index utf8_len
last_index-append [] c = refl
last_index-append (d ∷ []) c = omega arith
last_index-append (d ∷ e ∷ before) c = omega (arith, last_index-append (e ∷ before) c)

pub drain-append :
    (before gone kept : Text)
    → drain (before ++ (gone ++ kept)) (utf8_len before) (utf8_len before + utf8_len gone)
      ≡ some (before ++ kept)
unfolding drain
drain-append before gone kept =
    let width : utf8_len before + utf8_len gone - utf8_len before ≡ utf8_len gone = omega arith in
    rw (slices-append before (gone ++ kept)) (rw width (rw (slices-append gone kept) refl))
