-- ===== src/Ui/Input.antt =====
-- src/ui/input.rs: the field of one line. The cursor is a position in bytes; where the program slices
-- the text at the cursor it panics off a character boundary, and the model then gives none.
pub mod Cursor
pub mod Editing
pub mod Refinement
pub mod Bounds
use veilroom.Prelude.{
  Bool, Option, Text, [], and_then, false, if◌then◌else◌, leb, ltb, none, some, true, ℕ, ◌++◌, ◌+◌,
  ◌-◌, ◌==◌, ◌||◌, ◌∷◌, nat_eq, list_eq, pair_eq,
}
use veilroom.Prelude.Texts.{len_utf8, utf8_len}
use veilroom.Validation.{is_unsafe_display_char}

pub record TextField : Type 0 where
  pub text : Text
  pub cursor : ℕ
  pub max_bytes : ℕ
  pub complete : Bool

unfoldable pub new : ℕ → TextField
new max_bytes = record { text = []; cursor = 0; max_bytes = max_bytes; complete = false }

-- The text before a character, put before the first part.
after_char : ℕ → Option (Text × Text) → Option (Text × Text)
after_char c none = none
after_char c (some (before, rest)) = some (c ∷ before, rest)

-- `&text[..at]` and `&text[at..]`.
unfoldable pub slices : Text → ℕ → Option (Text × Text)
unfolding after_char
slices [] at = if at == 0 then some ([], []) else none
slices (c ∷ cs) at =
    let rest = slices cs (at - len_utf8 c) in
    if at == 0 then some ([], c ∷ cs) else if ltb at (len_utf8 c) then none else after_char c rest

-- `char_indices().next_back()`, or the start: where the last character begins.
unfoldable pub last_index : Text → ℕ
last_index [] = 0
last_index (c ∷ []) = 0
last_index (c ∷ d ∷ cs) = len_utf8 c + last_index (d ∷ cs)

-- `char_indices().nth(1)`: where the second character begins.
unfoldable pub second_index : Text → Option ℕ
second_index (c ∷ d ∷ cs) = some (len_utf8 c)
second_index _ = none

unfoldable pub insert_char : TextField → ℕ → Option (TextField × Bool)
insert_char f ch =
    let inserted = slices f.text f.cursor in
    if f.complete || is_unsafe_display_char ch
    then some (f, false)
    else if ltb f.max_bytes (utf8_len f.text + len_utf8 ch)
    then some (f, false)
    else and_then inserted (λ (before, rest).
      some (record f { text = before ++ ch ∷ rest; cursor = f.cursor + len_utf8 ch }, true))

unfoldable pub insert_text : TextField → Text → Option TextField
insert_text f [] = some f
insert_text f (ch ∷ chs) = and_then (insert_char f ch) (λ (g, taken). insert_text g chs)

-- `text.drain(from..to)`.
unfoldable pub drain : Text → ℕ → ℕ → Option Text
drain t from to =
    and_then (slices t from)
      (λ (before, rest). and_then (slices rest (to - from)) (λ (gone, kept). some (before ++ kept)))

unfoldable pub backspace : TextField → Option TextField
unfolding drain
backspace f =
    if f.complete || f.cursor == 0
    then some f
    else and_then (slices f.text f.cursor) (λ (before, rest).
      and_then (drain f.text (last_index before) f.cursor)
        (λ t. some (record f { text = t; cursor = last_index before })))

-- The position of the character after the cursor, where `rest` is the text from the cursor.
unfoldable pub next_index : TextField → Option ℕ → ℕ
next_index f none = utf8_len f.text
next_index f (some index) = f.cursor + index

unfoldable pub delete : TextField → Option TextField
unfolding drain next_index
delete f =
    if f.complete || leb (utf8_len f.text) f.cursor
    then some f
    else and_then (slices f.text f.cursor) (λ (before, rest).
      and_then (drain f.text f.cursor (next_index f (second_index rest)))
        (λ t. some (record f { text = t })))

unfoldable pub move_left : TextField → Option TextField
move_left f =
    if f.complete || f.cursor == 0
    then some f
    else and_then (slices f.text f.cursor)
        (λ (before, rest). some (record f { cursor = last_index before }))

unfoldable pub move_right : TextField → Option TextField
unfolding next_index
move_right f =
    if f.complete || leb (utf8_len f.text) f.cursor
    then some f
    else and_then (slices f.text f.cursor)
        (λ (before, rest). some (record f { cursor = next_index f (second_index rest) }))

unfoldable pub move_home : TextField → TextField
move_home f = if f.complete then f else record f { cursor = 0 }

unfoldable pub move_end : TextField → TextField
move_end f = if f.complete then f else record f { cursor = utf8_len f.text }

unfoldable pub clear : TextField → TextField
clear f = record f { text = []; cursor = 0; complete = false }

unfoldable pub reopen : TextField → TextField
reopen f = record f { complete = false; cursor = utf8_len f.text }

-- `Submit::Value` is some text, `Submit::None` none.
unfoldable pub submit : TextField → TextField × Option Text
submit f =
    if f.complete
    then (f, none)
    else if utf8_len f.text == 0
    then (f, none)
    else (record f { complete = true }, some f.text)
