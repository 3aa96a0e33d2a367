-- ===== src/Ui/Input/Refinement.antt =====
-- Each edit of a text field is the edit of its line.
use veilroom.Prelude.{
  Bool, List, Option, Text, [], and_then, ap, append_assoc, arith, false, none, refl, reverse, some,
  sym, true, ℕ, ◌++◌, ◌+◌, ◌∙◌, ◌∷◌, ◌≡◌,
}
use mathlib.Core.List.{reverse-append, reverse-reverse, append-nil, reverse-cons}
use veilroom.Prelude.Texts.{len_utf8, utf8_len}
use veilroom.Ui.Input.{
  drain, TextField, slices, insert_char, insert_text, backspace, delete, move_left, move_right,
  move_home, move_end, clear, reopen, submit, next_index, second_index, last_index,
}
use veilroom.Ui.Input.Editing.{
  Edit, Line, types, pastes, rubs, deletes, goes_left, goes_right, goes_home, goes_end, clears,
  reopens, submits, step, run, shown, field_of, typed, pasted, ideal, ideals, line,
}
use veilroom.Ui.Input.Cursor.{
  slices-append, last_index-append, drain-append, utf8_len-append, utf8_len-reverse, len_utf8-pos,
}

slices-shown : (z : Line) → slices (shown z) (utf8_len z.left) ≡ some (reverse z.left, z.right)
slices-shown z = rw (sym (utf8_len-reverse z.left)) (slices-append (reverse z.left) z.right)

insert_char-typed :
    (max_bytes : ℕ) (z : Line) (ch : ℕ)
    → and_then (insert_char (field_of max_bytes z) ch) (λ (g, taken). some g)
      ≡ some (field_of max_bytes (typed max_bytes z ch))
unfolding insert_char typed utf8_len
insert_char-typed max_bytes z ch = ground (
  arith,
  slices-shown z,
  utf8_len-append (reverse z.left) z.right,
  utf8_len-reverse z.left,
  reverse-cons ch z.left,
  append_assoc (reverse z.left) (ch ∷ []) z.right,
)

shown-cons : (c : ℕ) (left right : Text) → reverse (c ∷ left) ++ right ≡ reverse left ++ c ∷ right
shown-cons c left right = rw (reverse-cons c left) (append_assoc (reverse left) (c ∷ []) right)

last_index-reverse : (c : ℕ) (left : Text) → last_index (reverse (c ∷ left)) ≡ utf8_len left
last_index-reverse c left =
    rw (reverse-cons c left) (last_index-append (reverse left) c ∙ utf8_len-reverse left)

move_left-goes :
    (max_bytes : ℕ) (left right : Text) (complete : Bool)
    → move_left (field_of max_bytes (line left right complete))
      ≡ some (field_of max_bytes (ideal max_bytes (line left right complete) goes_left))
unfolding move_left ideal utf8_len
move_left-goes max_bytes left right true = refl
move_left-goes max_bytes [] right false = refl
move_left-goes max_bytes (c ∷ left) right false = ground (
  arith,
  slices-shown (line (c ∷ left) right false),
  last_index-reverse c left,
  len_utf8-pos c,
  shown-cons c left right,
)

next_index-line :
    (max_bytes : ℕ) (left : Text) (c : ℕ) (right : Text)
    → next_index (field_of max_bytes (line left (c ∷ right) false)) (second_index (c ∷ right))
      ≡ utf8_len left + len_utf8 c
unfolding next_index second_index utf8_len
next_index-line max_bytes left c [] =
    omega (arith, utf8_len-append (reverse left) (c ∷ []), utf8_len-reverse left)
next_index-line max_bytes left c (d ∷ right) = refl

length-shown :
    (left right : Text) → utf8_len (reverse left ++ right) ≡ utf8_len left + utf8_len right
length-shown left right = omega (arith, utf8_len-append (reverse left) right, utf8_len-reverse left)

move_right-goes :
    (max_bytes : ℕ) (left right : Text) (complete : Bool)
    → move_right (field_of max_bytes (line left right complete))
      ≡ some (field_of max_bytes (ideal max_bytes (line left right complete) goes_right))
unfolding move_right ideal utf8_len
move_right-goes max_bytes left right true = refl
move_right-goes max_bytes left [] false = ground (arith, length-shown left [])
move_right-goes max_bytes left (c ∷ right) false = ground (
  arith,
  slices-shown (line left (c ∷ right) false),
  next_index-line max_bytes left c right,
  len_utf8-pos c,
  shown-cons c left right,
  length-shown left (c ∷ right),
)

drain-right :
    (c : ℕ) (left right : Text)
    → drain (reverse left ++ c ∷ right) (utf8_len left) (utf8_len left + len_utf8 c)
      ≡ some (reverse left ++ right)
unfolding utf8_len
drain-right c left right =
    let width : len_utf8 c ≡ len_utf8 c + 0 = omega arith in
    rw (sym (utf8_len-reverse left)) (rw width (drain-append (reverse left) (c ∷ []) right))

drain-left :
    (c : ℕ) (left right : Text)
    → drain (reverse (c ∷ left) ++ right) (utf8_len left) (len_utf8 c + utf8_len left)
      ≡ some (reverse left ++ right)
drain-left c left right =
    let swapped : len_utf8 c + utf8_len left ≡ utf8_len left + len_utf8 c = omega arith in
    rw (shown-cons c left right) (rw swapped (drain-right c left right))

backspace-rubs :
    (max_bytes : ℕ) (left right : Text) (complete : Bool)
    → backspace (field_of max_bytes (line left right complete))
      ≡ some (field_of max_bytes (ideal max_bytes (line left right complete) rubs))
unfolding backspace ideal utf8_len
backspace-rubs max_bytes left right true = refl
backspace-rubs max_bytes [] right false = refl
backspace-rubs max_bytes (c ∷ left) right false = ground (
  arith,
  slices-shown (line (c ∷ left) right false),
  last_index-reverse c left,
  len_utf8-pos c,
  drain-left c left right,
)

delete-deletes :
    (max_bytes : ℕ) (left right : Text) (complete : Bool)
    → delete (field_of max_bytes (line left right complete))
      ≡ some (field_of max_bytes (ideal max_bytes (line left right complete) deletes))
unfolding delete ideal utf8_len
delete-deletes max_bytes left right true = refl
delete-deletes max_bytes left [] false = ground (arith, length-shown left [])
delete-deletes max_bytes left (c ∷ right) false = ground (
  arith,
  slices-shown (line left (c ∷ right) false),
  next_index-line max_bytes left c right,
  len_utf8-pos c,
  drain-right c left right,
  length-shown left (c ∷ right),
)

shown-end : (left right : Text) → reverse (reverse right ++ left) ++ [] ≡ reverse left ++ right
shown-end left right =
    append-nil (reverse (reverse right ++ left))
    ∙ reverse-append (reverse right) left
    ∙ ap (λ t. reverse left ++ t) (reverse-reverse right)

length-end :
    (left right : Text) → utf8_len (reverse right ++ left) ≡ utf8_len (reverse left ++ right)
length-end left right = omega (arith, length-shown left right, length-shown right left)

move_end-goes :
    (max_bytes : ℕ) (left right : Text) (complete : Bool)
    → move_end (field_of max_bytes (line left right complete))
      ≡ field_of max_bytes (ideal max_bytes (line left right complete) goes_end)
unfolding move_end ideal
move_end-goes max_bytes left right true = refl
move_end-goes max_bytes left right false =
    ground (arith, shown-end left right, length-end left right)

move_home-goes :
    (max_bytes : ℕ) (left right : Text) (complete : Bool)
    → move_home (field_of max_bytes (line left right complete))
      ≡ field_of max_bytes (ideal max_bytes (line left right complete) goes_home)
unfolding move_home ideal utf8_len
move_home-goes max_bytes left right true = refl
move_home-goes max_bytes left right false = refl

reopen-reopens :
    (max_bytes : ℕ) (left right : Text) (complete : Bool)
    → reopen (field_of max_bytes (line left right complete))
      ≡ field_of max_bytes (ideal max_bytes (line left right complete) reopens)
unfolding reopen ideal
reopen-reopens max_bytes left right complete =
    ground (arith, shown-end left right, length-end left right)

submit-submits :
    (max_bytes : ℕ) (left right : Text) (complete : Bool)
    → (submit (field_of max_bytes (line left right complete))).0
      ≡ field_of max_bytes (ideal max_bytes (line left right complete) submits)
unfolding submit ideal utf8_len
submit-submits max_bytes left right true = refl
submit-submits max_bytes [] [] false = refl
submit-submits max_bytes (c ∷ left) right false =
    ground (arith, length-shown (c ∷ left) right, len_utf8-pos c)
submit-submits max_bytes [] (c ∷ right) false = ground (arith, len_utf8-pos c)

then_first :
    (m : Option (TextField × Bool)) (k : TextField → Option TextField) (a : TextField)
    → and_then m (λ (g, taken). some g) ≡ some a
    → and_then m (λ (g, taken). k g) ≡ k a
then_first none k a h = absurd (cc)
then_first (some (g, taken)) k a h = let same : g ≡ a = cc in ap k same

insert_text-pasted :
    (max_bytes : ℕ) (z : Line) (t : Text)
    → insert_text (field_of max_bytes z) t ≡ some (field_of max_bytes (pasted max_bytes z t))
unfolding insert_text pasted
insert_text-pasted max_bytes z [] = refl
insert_text-pasted max_bytes z (ch ∷ chs) =
    then_first (insert_char (field_of max_bytes z) ch) (λ g. insert_text g chs)
      (field_of max_bytes (typed max_bytes z ch)) (insert_char-typed max_bytes z ch)
    ∙ insert_text-pasted max_bytes (typed max_bytes z ch) chs

step-ideal :
    (max_bytes : ℕ) (z : Line) (e : Edit)
    → step (field_of max_bytes z) e ≡ some (field_of max_bytes (ideal max_bytes z e))
unfolding step ideal clear utf8_len
step-ideal max_bytes z (types ch) = insert_char-typed max_bytes z ch
step-ideal max_bytes z (pastes t) = insert_text-pasted max_bytes z t
step-ideal max_bytes z rubs = backspace-rubs max_bytes z.left z.right z.complete
step-ideal max_bytes z deletes = delete-deletes max_bytes z.left z.right z.complete
step-ideal max_bytes z goes_left = move_left-goes max_bytes z.left z.right z.complete
step-ideal max_bytes z goes_right = move_right-goes max_bytes z.left z.right z.complete
step-ideal max_bytes z goes_home = ap some (move_home-goes max_bytes z.left z.right z.complete)
step-ideal max_bytes z goes_end = ap some (move_end-goes max_bytes z.left z.right z.complete)
step-ideal max_bytes z clears = refl
step-ideal max_bytes z reopens = ap some (reopen-reopens max_bytes z.left z.right z.complete)
step-ideal max_bytes z submits = ap some (submit-submits max_bytes z.left z.right z.complete)

pub run-ideals :
    (max_bytes : ℕ) (z : Line) (es : List Edit)
    → run (field_of max_bytes z) es ≡ some (field_of max_bytes (ideals max_bytes z es))
unfolding run ideals
run-ideals max_bytes z [] = refl
run-ideals max_bytes z (e ∷ es) =
    rw (step-ideal max_bytes z e) (run-ideals max_bytes (ideal max_bytes z e) es)
