-- ===== src/Crypto/Transcript/Fields.antt =====
-- Byte strings written field by field: a string determines its fields once their shapes are known.
use veilroom.Prelude.{
  Bytes, List, [], ap, arith, byte_range, length, length-to_be_bytes, refl, sym, to_be_bytes,
  to_be_bytes-injective, ℕ, ◌++◌, ◌<◌, ◌∙◌, ◌∷◌, ◌≡◌,
}

-- One field: a byte, a number of some width, bytes behind their length, or bytes of a known length.
pub data Field : Type 0 where
  byte : ℕ → Field
  number : ℕ → ℕ → Field
  counted : Bytes → Field
  raw : Bytes → Field

-- The fields before some rest.
abbrev pub write_field : Field → Bytes → Bytes
write_field (byte b) rest = b ∷ rest
write_field (number k x) rest = to_be_bytes k x ++ rest
write_field (counted b) rest = to_be_bytes 4 (length b) ++ (b ++ rest)
write_field (raw b) rest = b ++ rest

abbrev pub write : List Field → Bytes → Bytes
write [] rest = rest
write (f ∷ fs) rest = write_field f (write fs rest)

-- The same kind of field, with the same length where the string does not tell it, and numbers that fit.
abbrev pub SameField : Field → Field → Type 0
SameField (byte b) (byte c) = Unit
SameField (number k x) (number j y) = (k ≡ j) × (x < byte_range k) × (y < byte_range k)
SameField (counted b) (counted c) = (length b < byte_range 4) × (length c < byte_range 4)
SameField (raw b) (raw c) = length b ≡ length c
SameField _ _ = ⊥

abbrev pub SameShape : List Field → List Field → Type 0
SameShape [] [] = Unit
SameShape (f ∷ fs) (g ∷ gs) = SameField f g × SameShape fs gs
SameShape _ _ = ⊥

append_cancel :
    (xs ys r s : Bytes) → length xs ≡ length ys → (xs ++ r) ≡ (ys ++ s) → (xs ≡ ys) × (r ≡ s)
append_cancel [] [] r s h e = (refl, e)
append_cancel [] (y ∷ ys) r s h e = absurd (omega arith)
append_cancel (x ∷ xs) [] r s h e = absurd (omega arith)
append_cancel (x ∷ xs) (y ∷ ys) r s h e =
    let rest = append_cancel xs ys r s (omega arith) (cc) in (cc, rest.1)

number_cancel :
    (k x y : ℕ) (r s : Bytes)
    → x < byte_range k
    → y < byte_range k
    → (to_be_bytes k x ++ r) ≡ (to_be_bytes k y ++ s)
    → (x ≡ y) × (r ≡ s)
number_cancel k x y r s hx hy e =
    let same =
      append_cancel (to_be_bytes k x) (to_be_bytes k y) r s
        (length-to_be_bytes k x ∙ sym (length-to_be_bytes k y)) e in
    (to_be_bytes-injective k x y hx hy same.0, same.1)

write_field-injective :
    (f g : Field) (r s : Bytes)
    → SameField f g
    → write_field f r ≡ write_field g s
    → (f ≡ g) × (r ≡ s)
write_field-injective (byte b) (byte c) r s h e = (cc, cc)
write_field-injective (number k x) (number j y) r s h e =
    let same = number_cancel k x y r s h.1 h.2 (e ∙ ap (λ w. to_be_bytes w y ++ s) (sym h.0)) in
    (cc (h.0, same.0), same.1)
write_field-injective (counted b) (counted c) r s h e =
    let lengths = number_cancel 4 (length b) (length c) (b ++ r) (c ++ s) h.0 h.1 e in
    let same = append_cancel b c r s lengths.0 lengths.1 in (ap counted same.0, same.1)
write_field-injective (raw b) (raw c) r s h e =
    let same = append_cancel b c r s h e in (ap raw same.0, same.1)
write_field-injective _ _ r s h e = absurd h

-- The string and the rest determine the fields, and the fields and the string the rest.
pub write-injective :
    (fs gs : List Field) (r s : Bytes)
    → SameShape fs gs
    → write fs r ≡ write gs s
    → (fs ≡ gs) × (r ≡ s)
write-injective [] [] r s h e = (refl, e)
write-injective (f ∷ fs) (g ∷ gs) r s h e =
    let head = write_field-injective f g (write fs r) (write gs s) h.0 e in
    let rest = write-injective fs gs r s h.1 head.1 in (cc, rest.1)
write-injective _ _ r s h e = absurd h
