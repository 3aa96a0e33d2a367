-- ===== src/Ui/Input/Editing.antt =====
-- A text field as an editor sees it: the characters left and right of the cursor.
use veilroom.Prelude.{
  Bool, List, Option, Text, [], and_then, false, if◌then◌else◌, ltb, reverse, some, true, ℕ, ◌++◌,
  ◌+◌, ◌||◌, ◌∷◌,
}
use veilroom.Prelude.Texts.{len_utf8, utf8_len}
use veilroom.Validation.{is_unsafe_display_char}
use veilroom.Ui.Input.{
  TextField, insert_char, insert_text, backspace, delete, move_left, move_right, move_home,
  move_end, clear, reopen, submit,
}

-- What a user does in a field.
pub data Edit : Type 0 where
  types : ℕ → Edit
  pastes : Text → Edit
  rubs deletes goes_left goes_right goes_home goes_end clears reopens submits : Edit

unfoldable pub step : TextField → Edit → Option TextField
step f (types ch) = and_then (insert_char f ch) (λ (g, taken). some g)
step f (pastes t) = insert_text f t
step f rubs = backspace f
step f deletes = delete f
step f goes_left = move_left f
step f goes_right = move_right f
step f goes_home = some (move_home f)
step f goes_end = some (move_end f)
step f clears = some (clear f)
step f reopens = some (reopen f)
step f submits = some (submit f).0

unfoldable pub run : TextField → List Edit → Option TextField
run f [] = some f
run f (e ∷ es) = and_then (step f e) (λ g. run g es)

-- The characters left of the cursor, the nearest first, and those right of it.
pub record Line : Type 0 where
  pub left : Text
  pub right : Text
  pub complete : Bool

abbrev pub blank : Line
blank = record { left = []; right = []; complete = false }

-- The text of a line.
abbrev pub shown : Line → Text
shown z = reverse z.left ++ z.right

-- The field that holds a line.
abbrev pub field_of : ℕ → Line → TextField
field_of max_bytes z = record {
  text = shown z;
  cursor = utf8_len z.left;
  max_bytes = max_bytes;
  complete = z.complete;
}

unfoldable pub typed : ℕ → Line → ℕ → Line
typed max_bytes z ch =
    if z.complete
      || is_unsafe_display_char ch
      || ltb max_bytes (utf8_len z.left + utf8_len z.right + len_utf8 ch)
    then z
    else record z { left = ch ∷ z.left }

unfoldable pub pasted : ℕ → Line → Text → Line
unfolding typed
pasted max_bytes z [] = z
pasted max_bytes z (ch ∷ chs) = pasted max_bytes (typed max_bytes z ch) chs

-- An edit of an open line.
unfoldable pub edited : Edit → Text → Text → Line
edited rubs (c ∷ left) right = record { left = left; right = right; complete = false }
edited deletes left (c ∷ right) = record { left = left; right = right; complete = false }
edited goes_left (c ∷ left) right = record { left = left; right = c ∷ right; complete = false }
edited goes_right left (c ∷ right) = record { left = c ∷ left; right = right; complete = false }
edited goes_home left right = record { left = []; right = reverse left ++ right; complete = false }
edited goes_end left right = record { left = reverse right ++ left; right = []; complete = false }
edited submits [] [] = blank
edited submits left right = record { left = left; right = right; complete = true }
edited _ left right = record { left = left; right = right; complete = false }

-- What an edit does to a line: a completed line is only cleared or reopened.
unfoldable pub ideal : ℕ → Line → Edit → Line
unfolding pasted typed edited
ideal max_bytes z (types ch) = typed max_bytes z ch
ideal max_bytes z (pastes t) = pasted max_bytes z t
ideal max_bytes z clears = blank
ideal max_bytes z reopens = record {
  left = reverse z.right ++ z.left;
  right = [];
  complete = false;
}
ideal max_bytes z e = if z.complete then z else edited e z.left z.right

unfoldable pub ideals : ℕ → Line → List Edit → Line
ideals max_bytes z [] = z
ideals max_bytes z (e ∷ es) = ideals max_bytes (ideal max_bytes z e) es

-- A line from its parts.
abbrev pub line : Text → Text → Bool → Line
line left right complete = record { left = left; right = right; complete = complete }
