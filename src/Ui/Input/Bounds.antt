-- ===== src/Ui/Input/Bounds.antt =====
-- What a text field can hold.
use veilroom.Prelude.{
  Bool, List, Text, [], ap, arith, false, if◌then◌else◌, refl, reverse, some, true, ℕ, ◌++◌, ◌+◌,
  ◌||◌, ◌∙◌, ◌∷◌, ◌≡◌, ◌≤◌,
}
use mathlib.Core.List.{reverse-cons}
use veilroom.Prelude.Texts.{utf8_len}
use veilroom.Validation.{contains_control_char}
use veilroom.Ui.Input.{new}
use veilroom.Ui.Input.Cursor.{utf8_len-append, utf8_len-reverse}
use veilroom.Ui.Input.Editing.{
  Edit, Line, types, pastes, rubs, deletes, goes_left, goes_right, goes_home, goes_end, clears,
  reopens, submits, run, blank, shown, field_of, typed, pasted, edited, ideal, ideals,
}
use veilroom.Ui.Input.Refinement.{run-ideals}

contains-append :
    (a b : Text)
    → contains_control_char (a ++ b) ≡ (contains_control_char a || contains_control_char b)
unfolding contains_control_char
contains-append [] b = refl
contains-append (c ∷ a) b = ground (arith, contains-append a b)

contains-reverse : (a : Text) → contains_control_char (reverse a) ≡ contains_control_char a
unfolding contains_control_char
contains-reverse [] = refl
contains-reverse (c ∷ a) =
    ap contains_control_char (reverse-cons c a)
    ∙ contains-append (reverse a) (c ∷ [])
    ∙ ground (arith, contains-reverse a)

record IsKept (max_bytes : ℕ) (z : Line) : Type 0 where
  fits : utf8_len z.left + utf8_len z.right ≤ max_bytes
  clean_left : contains_control_char z.left ≡ false
  clean_right : contains_control_char z.right ≡ false

typed-IsKept :
    (max_bytes : ℕ) (z : Line) (ch : ℕ)
    → IsKept max_bytes z
    → IsKept max_bytes (typed max_bytes z ch)
unfolding typed utf8_len contains_control_char
typed-IsKept max_bytes z ch k = ground arith

pasted-IsKept :
    (max_bytes : ℕ) (z : Line) (t : Text)
    → IsKept max_bytes z
    → IsKept max_bytes (pasted max_bytes z t)
unfolding pasted
pasted-IsKept max_bytes z [] k = k
pasted-IsKept max_bytes z (c ∷ t) k =
    pasted-IsKept max_bytes (typed max_bytes z c) t (typed-IsKept max_bytes z c k)

joined-clean :
    (left right : Text)
    → contains_control_char left ≡ false
    → contains_control_char right ≡ false
    → contains_control_char (reverse left ++ right) ≡ false
joined-clean left right l r =
    ground (arith, contains-append (reverse left) right, contains-reverse left)

joined-fits :
    (left right : Text) → utf8_len (reverse left ++ right) ≡ utf8_len left + utf8_len right
joined-fits left right = omega (arith, utf8_len-append (reverse left) right, utf8_len-reverse left)

end-IsKept :
    (max_bytes : ℕ) (left right : Text) (complete : Bool)
    → IsKept max_bytes (record { left = left; right = right; complete = complete })
    → IsKept max_bytes (record { left = reverse right ++ left; right = []; complete = false })
unfolding utf8_len contains_control_char
end-IsKept max_bytes left right complete k =
    ground (arith, joined-fits right left, joined-clean right left k.clean_right k.clean_left)

edited-IsKept :
    (max_bytes : ℕ) (e : Edit) (left right : Text) (complete : Bool)
    → IsKept max_bytes (record { left = left; right = right; complete = complete })
    → IsKept max_bytes (edited e left right)
unfolding edited utf8_len contains_control_char
edited-IsKept max_bytes rubs [] right complete k = ground arith
edited-IsKept max_bytes rubs (c ∷ left) right complete k = ground arith
edited-IsKept max_bytes deletes left [] complete k = ground arith
edited-IsKept max_bytes deletes left (c ∷ right) complete k = ground arith
edited-IsKept max_bytes goes_left [] right complete k = ground arith
edited-IsKept max_bytes goes_left (c ∷ left) right complete k = ground arith
edited-IsKept max_bytes goes_right left [] complete k = ground arith
edited-IsKept max_bytes goes_right left (c ∷ right) complete k = ground arith
edited-IsKept max_bytes goes_home left right complete k =
    ground (arith, joined-fits left right, joined-clean left right k.clean_left k.clean_right)
edited-IsKept max_bytes goes_end left right complete k = end-IsKept max_bytes left right complete k
edited-IsKept max_bytes submits [] [] complete k = ground arith
edited-IsKept max_bytes submits (c ∷ left) right complete k = ground arith
edited-IsKept max_bytes submits [] (c ∷ right) complete k = ground arith
edited-IsKept max_bytes (types c) left right complete k = ground arith
edited-IsKept max_bytes (pastes t) left right complete k = ground arith
edited-IsKept max_bytes clears left right complete k = ground arith
edited-IsKept max_bytes reopens left right complete k = ground arith

chosen-IsKept :
    (max_bytes : ℕ) (e : Edit) (z : Line) (closed : Bool)
    → IsKept max_bytes z
    → IsKept max_bytes (if closed then z else edited e z.left z.right)
chosen-IsKept max_bytes e z true k = k
chosen-IsKept max_bytes e z false k = edited-IsKept max_bytes e z.left z.right z.complete k

open-IsKept :
    (max_bytes : ℕ) (e : Edit) (z : Line)
    → IsKept max_bytes z
    → IsKept max_bytes (if z.complete then z else edited e z.left z.right)
open-IsKept max_bytes e z k = chosen-IsKept max_bytes e z z.complete k

ideal-IsKept :
    (max_bytes : ℕ) (z : Line) (e : Edit)
    → IsKept max_bytes z
    → IsKept max_bytes (ideal max_bytes z e)
unfolding ideal utf8_len contains_control_char
ideal-IsKept max_bytes z (types c) k = typed-IsKept max_bytes z c k
ideal-IsKept max_bytes z (pastes t) k = pasted-IsKept max_bytes z t k
ideal-IsKept max_bytes z clears k = ground arith
ideal-IsKept max_bytes z reopens k = end-IsKept max_bytes z.left z.right z.complete k
ideal-IsKept max_bytes z rubs k = open-IsKept max_bytes rubs z k
ideal-IsKept max_bytes z deletes k = open-IsKept max_bytes deletes z k
ideal-IsKept max_bytes z goes_left k = open-IsKept max_bytes goes_left z k
ideal-IsKept max_bytes z goes_right k = open-IsKept max_bytes goes_right z k
ideal-IsKept max_bytes z goes_home k = open-IsKept max_bytes goes_home z k
ideal-IsKept max_bytes z goes_end k = open-IsKept max_bytes goes_end z k
ideal-IsKept max_bytes z submits k = open-IsKept max_bytes submits z k

ideals-IsKept :
    (max_bytes : ℕ) (z : Line) (es : List Edit)
    → IsKept max_bytes z
    → IsKept max_bytes (ideals max_bytes z es)
unfolding ideals
ideals-IsKept max_bytes z [] k = k
ideals-IsKept max_bytes z (e ∷ es) k =
    ideals-IsKept max_bytes (ideal max_bytes z e) es (ideal-IsKept max_bytes z e k)

blank-IsKept : (max_bytes : ℕ) → IsKept max_bytes blank
unfolding utf8_len contains_control_char
blank-IsKept max_bytes = ground arith

-- A new text field that accepts `max_bytes` never panics on a sequence of edits. It does what an
-- editor does that keeps the characters left and right of the cursor: after the edits its text is
-- those characters, its cursor the bytes of those on the left, and it is complete when the editor
-- is. The text has at most `max_bytes` bytes, and none of its characters is unsafe to display.
pub run-new-Line :
    (max_bytes : ℕ) (es : List Edit)
    → (run (new max_bytes) es ≡ some (field_of max_bytes (ideals max_bytes blank es)))
      × (utf8_len (shown (ideals max_bytes blank es)) ≤ max_bytes)
      × (contains_control_char (shown (ideals max_bytes blank es)) ≡ false)
unfolding new utf8_len
run-new-Line max_bytes es =
    let z = ideals max_bytes blank es in
    let k = ideals-IsKept max_bytes blank es (blank-IsKept max_bytes) in
    (
      run-ideals max_bytes blank es,
      omega (arith, k.fits, joined-fits z.left z.right),
      joined-clean z.left z.right k.clean_left k.clean_right,
    )
