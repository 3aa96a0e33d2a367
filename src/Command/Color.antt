-- ===== src/Command/Color.antt =====
-- command.rs: the fixed palette.
use veilroom.Prelude.{
  Option, arith, if◌then◌else◌, none, some, ℕ, ◌==◌, ◌↔◌, ◌≡◌, nat_eq, list_eq, pair_eq,
}

pub data ColorChoice : Type 0 where
  red green yellow blue magenta cyan white : ColorChoice

abbrev pub default : ColorChoice
default = white

unfoldable pub as_index : ColorChoice → ℕ
as_index red = 0
as_index green = 1
as_index yellow = 2
as_index blue = 3
as_index magenta = 4
as_index cyan = 5
as_index white = 6

unfoldable pub from_index : ℕ → Option ColorChoice
from_index index =
    if index == 0
    then some red
    else if index == 1
    then some green
    else if index == 2
    then some yellow
    else if index == 3
    then some blue
    else if index == 4
    then some magenta
    else if index == 5
    then some cyan
    else if index == 6
    then some white
    else none

-- A colour survives the wire, and an index that is read as a colour is the one that colour is sent as.
pub from_index-as_index :
    (c : ColorChoice) (i : ℕ)
    → (from_index (as_index c) ≡ some c) × ((from_index i ≡ some c) ↔ (i ≡ as_index c))
unfolding from_index as_index
from_index-as_index c i = (ground arith, (λ h. ground arith, λ h. ground arith))
