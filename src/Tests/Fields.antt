-- ===== src/Tests/Fields.antt =====
-- Text fields, password fields and a render buffer at concrete edits.
use veilroom.Prelude.Texts.{len_utf8, utf8_len}
use veilroom.Ui.Input.{new}
use veilroom.Prelude.{List, [], false, none, refl, some, text, true, ℕ, ◌∷◌, ◌≡◌, ◌≤◌}
use veilroom.Validation.{is_unsafe_display_char, contains_control_char}
use veilroom.Ui.Secret.{SecretField, push_char, pop, pop-push_char}
use veilroom.Ui.Buffer.{MessageLine, muted, buffer_of, extend}
use veilroom.Ui.Buffer.Recent.{extend-buffer_of}
use veilroom.Ui.Input.Bounds.{run-new-Line}
use veilroom.Ui.Input.Editing.{
  edited, typed, pasted, ideal, Edit, types, pastes, rubs, goes_left, submits, run, field_of,
  ideals, blank, shown,
}

-- The second character of three is removed, and the field is submitted.
abbrev edits : List Edit
edits = pastes (text "aéz") ∷ goes_left ∷ rubs ∷ types 0x07 ∷ submits ∷ []

run-new-Line_example :
    (run (new 8) edits ≡ some (field_of 8 (ideals 8 blank edits)))
    × (utf8_len (shown (ideals 8 blank edits)) ≤ 8)
    × (contains_control_char (shown (ideals 8 blank edits)) ≡ false)
run-new-Line_example = run-new-Line 8 edits

edits_text : shown (ideals 8 blank edits) ≡ text "az"
unfolding ideals ideal pasted typed edited utf8_len len_utf8 is_unsafe_display_char
edits_text = refl

-- A password field with two bytes.
abbrev two_bytes : SecretField
two_bytes = record { bytes = 0x61 ∷ 0x62 ∷ []; max_bytes = 8; complete = false }

accepted : (push_char two_bytes 0x20AC).1 ≡ true
unfolding push_char len_utf8 is_unsafe_display_char
accepted = refl

pop-push_char_example : pop (push_char two_bytes 0x20AC).0 ≡ two_bytes
pop-push_char_example = pop-push_char two_bytes 0x20AC accepted

abbrev hint : ℕ → MessageLine
hint n = record {
  text = n ∷ [];
  style = muted;
  nickname = none;
  timestamp = record { seconds_since_midnight = 0 };
  created_at = 0;
  expires_at = none;
}

extend-buffer_of_example :
    (extend (buffer_of 2) (hint 1 ∷ hint 2 ∷ hint 3 ∷ [])).lines ≡ hint 2 ∷ hint 3 ∷ []
extend-buffer_of_example = extend-buffer_of 2 (hint 1 ∷ hint 2 ∷ hint 3 ∷ [])
