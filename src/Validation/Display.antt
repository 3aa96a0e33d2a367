-- ===== src/Validation/Display.antt =====
-- What sanitizing and validation leave of a text.
use veilroom.Prelude.{Text, [], arith, false, refl, ◌∷◌, ◌≡◌}
use veilroom.Validation.{
  is_unsafe_display_char, is_control, is_dangerous_format_char, contains_control_char,
  sanitize_for_display,
}

-- A sanitized text has no character that is unsafe to display, and a text without one is left as it
-- is.
pub sanitize_for_display-safe :
    (t : Text)
    → (contains_control_char (sanitize_for_display t) ≡ false)
      × (contains_control_char t ≡ false → sanitize_for_display t ≡ t)
unfolding sanitize_for_display contains_control_char is_unsafe_display_char is_control
    is_dangerous_format_char
sanitize_for_display-safe [] = (refl, λ h. refl)
sanitize_for_display-safe (c ∷ cs) = ground (arith, sanitize_for_display-safe cs)
