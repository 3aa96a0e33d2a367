-- ===== src/Ui/Buffer/Recent.antt =====
-- The buffer holds the most recent lines.
use veilroom.Prelude.{
  Bool-cases, List, [], ap, append-nil, append_assoc, arith, drop, drop-append_le, inl, inr, leb,
  leb→le, length, length-append, length-drop, min, refl, suc, zero, ℕ, ◌++◌, ◌-◌, ◌<◌, ◌∙◌, ◌∷◌,
  ◌≡◌, ◌≤◌,
}
use veilroom.Ui.Buffer.{MessageLine, RenderBuffer, buffer_of, push_line, extend}

drop-one : (k : ℕ) (h : List MessageLine) → drop 1 (drop k h) ≡ drop (suc k) h
drop-one zero h = refl
drop-one (suc k) [] = refl
drop-one (suc k) (l ∷ h) = drop-one k h

drop-length : (h : List MessageLine) → drop (length h) h ≡ []
drop-length [] = refl
drop-length (l ∷ h) = drop-length h

-- The last lines of a history.
abbrev pub recent : ℕ → List MessageLine → List MessageLine
recent capacity h = drop (length h - capacity) h

abbrev holding : ℕ → List MessageLine → RenderBuffer
holding capacity h = record { lines = recent capacity h; capacity = capacity }

length-recent :
    (capacity : ℕ) (h : List MessageLine) → length (recent capacity h) ≡ min (length h) capacity
length-recent capacity h = omega (arith, length-drop (length h - capacity) h)

-- A history that the buffer holds whole, and one that it does not.
recent-short :
    (capacity : ℕ) (h : List MessageLine) (l : MessageLine)
    → length h < capacity
    → recent capacity (h ++ l ∷ []) ≡ recent capacity h ++ l ∷ []
recent-short capacity h l short =
    let before : length h - capacity ≡ 0 = omega arith in
    let after : length (h ++ l ∷ []) - capacity ≡ 0 = omega (arith, length-append h (l ∷ [])) in
    rw (before, after) refl

recent-long :
    (capacity : ℕ) (h : List MessageLine) (l : MessageLine)
    → 0 < capacity
    → capacity ≤ length h
    → recent capacity (h ++ l ∷ []) ≡ drop 1 (recent capacity h) ++ l ∷ []
recent-long capacity h l some_room long =
    let after : length (h ++ l ∷ []) - capacity ≡ suc (length h - capacity) =
      omega (arith, length-append h (l ∷ [])) in
    rw (drop-one (length h - capacity) h)
      (rw after (drop-append_le (suc (length h - capacity)) h (l ∷ []) (omega arith)))

recent-nothing : (h : List MessageLine) → recent 0 h ≡ []
recent-nothing h =
    let all_lines : length h - 0 ≡ length h = omega arith in rw all_lines (drop-length h)

push_line-recent :
    (capacity : ℕ) (h : List MessageLine) (l : MessageLine)
    → push_line (holding capacity h) l ≡ holding capacity (h ++ l ∷ [])
unfolding push_line
push_line-recent zero h l = rw (recent-nothing h, recent-nothing (h ++ l ∷ [])) refl
push_line-recent (suc n) h l = elim (Bool-cases (leb (suc n) (length h))) [
  | inl long ↦
      let room = recent-long (suc n) h l (omega arith) (leb→le _ _ long) in
      ground (arith, length-recent (suc n) h, room)
  | inr short ↦
      let room = recent-short (suc n) h l (ground arith) in
      ground (arith, length-recent (suc n) h, room)
]

extend-recent :
    (capacity : ℕ) (h ls : List MessageLine)
    → extend (holding capacity h) ls ≡ holding capacity (h ++ ls)
unfolding extend
extend-recent capacity h [] = rw (append-nil h) refl
extend-recent capacity h (l ∷ ls) =
    rw (push_line-recent capacity h l)
      (extend-recent capacity (h ++ l ∷ []) ls ∙ ap (holding capacity) (append_assoc h (l ∷ []) ls))

-- A new buffer to which lines are pushed one by one holds the last of them in order, as many as its
-- capacity: a full buffer loses its oldest line, and a buffer of capacity zero takes none.
pub extend-buffer_of :
    (capacity : ℕ) (ls : List MessageLine)
    → (extend (buffer_of capacity) ls).lines ≡ drop (length ls - capacity) ls
unfolding buffer_of
extend-buffer_of capacity ls =
    let nothing : 0 - capacity ≡ 0 = omega arith in
    let start : buffer_of capacity ≡ holding capacity [] = rw nothing refl in
    ap (λ (b : RenderBuffer). (extend b ls).lines) start
    ∙ ap (λ (b : RenderBuffer). b.lines) (extend-recent capacity [] ls)
