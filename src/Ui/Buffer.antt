-- ===== src/Ui/Buffer.antt =====
-- src/ui/buffer.rs: the bounded buffer of rendered lines. An instant is a number of nanoseconds, and
-- `last_instant` is the largest one.
pub mod Recent
use veilroom.Prelude.{
  Bool, List, Option, Text, [], drop, if◌then◌else◌, leb, length, ltb, map, min, none, retain, some,
  true, ℕ, ◌*◌, ◌++◌, ◌+◌, ◌-◌, ◌==◌, ◌||◌, ◌∷◌, nat_eq, list_eq, pair_eq,
}
use veilroom.Command.Color.{ColorChoice}

pub record GmtTimestamp : Type 0 where
  pub seconds_since_midnight : ℕ

unfoldable pub from_hms : ℕ → ℕ → ℕ → Option GmtTimestamp
from_hms hour minute second =
    if leb 24 hour || leb 60 minute || leb 60 second
    then none
    else some (record { seconds_since_midnight = hour * 3600 + minute * 60 + second })

pub data LineStyle : Type 0 where
  chat notice alert error muted : LineStyle
  palette : ColorChoice → LineStyle

pub record NicknameSpan : Type 0 where
  pub text : Text
  pub color : ColorChoice

pub record MessageLine : Type 0 where
  pub text : Text
  pub style : LineStyle
  pub nickname : Option NicknameSpan
  pub timestamp : GmtTimestamp
  pub created_at : ℕ
  pub expires_at : Option ℕ

pub record RenderBuffer : Type 0 where
  pub lines : List MessageLine
  pub capacity : ℕ

abbrev pub default_render_buffer_capacity : ℕ
default_render_buffer_capacity = 256

unfoldable pub buffer_of : ℕ → RenderBuffer
buffer_of capacity = record { lines = []; capacity = capacity }

unfoldable pub push_line : RenderBuffer → MessageLine → RenderBuffer
push_line b l =
    if b.capacity == 0
    then b
    else if length b.lines == b.capacity
    then record b { lines = drop 1 b.lines ++ l ∷ [] }
    else record b { lines = b.lines ++ l ∷ [] }

unfoldable pub extend : RenderBuffer → List MessageLine → RenderBuffer
extend b [] = b
extend b (l ∷ ls) = extend (push_line b l) ls

unfoldable pub clear_lines : RenderBuffer → RenderBuffer
clear_lines b = record b { lines = [] }

-- `max_age.and_then(|age| created_at.checked_add(age))`.
unfoldable pub deadline : ℕ → Option ℕ → MessageLine → Option ℕ
deadline last_instant none l = none
deadline last_instant (some age) l =
    if leb (l.created_at + age) last_instant then some (l.created_at + age) else none

unfoldable pub set_expiry : ℕ → RenderBuffer → Option ℕ → RenderBuffer
set_expiry last_instant b max_age = record b {
  lines =
      map {A = MessageLine} {B = MessageLine}
        (λ l. record l { expires_at = deadline last_instant max_age l }) b.lines;
}

-- `expires_at.is_none_or(|deadline| deadline > now)`.
unfoldable pub is_alive : ℕ → MessageLine → Bool
is_alive now l = elim l.expires_at [ none ↦ true | some at ↦ ltb now at ]

unfoldable pub expire_due : RenderBuffer → ℕ → RenderBuffer × ℕ
expire_due b now =
    let kept = retain (is_alive now) b.lines in
    (record b { lines = kept }, length b.lines - length kept)

-- The smaller of two deadlines, where a line may have none.
unfoldable pub earlier : Option ℕ → Option ℕ → Option ℕ
earlier none b = b
earlier (some a) none = some a
earlier (some a) (some b) = some (min a b)

unfoldable pub next_expiry : List MessageLine → Option ℕ
next_expiry [] = none
next_expiry (l ∷ ls) = earlier l.expires_at (next_expiry ls)
