-- ===== src/Prelude/HashMap.antt =====
-- `std::collections::HashMap` as an association list: an insertion replaces the value of its key in
-- place. The order in which a `HashMap` iterates is unspecified; here it is the order of insertion.
use veilroom.Prelude.Tests.{if◌then◌else◌, is_some}
use veilroom.Prelude.Equality.{Eq, ◌==◌, contains}
use mathlib.Core.Path.{◌≡◌, refl}
use mathlib.Core.Bool.{Bool}
use mathlib.Core.List.{List, [], ◌∷◌}
use mathlib.Core.Option.{Option, none, some}
use native.Mathlib.Omega.{arith}

abbrev pub HashMap {ℓ κ} : Type ℓ → Type κ → Type (ℓ ⊔ κ)
HashMap K V = List (K × V)

module _ {ℓ κ} {K : Type ℓ} {V : Type κ} ⦃e : Eq K⦄ where
  unfoldable pub get : K → HashMap K V → Option V
  get k [] = none
  get k ((j, v) ∷ m) = if j == k then some v else get k m

  unfoldable pub insert : K → V → HashMap K V → HashMap K V
  insert k v [] = (k, v) ∷ []
  insert k v ((j, w) ∷ m) = if j == k then (k, v) ∷ m else (j, w) ∷ insert k v m

  unfoldable pub remove : K → HashMap K V → HashMap K V
  remove k [] = []
  remove k ((j, w) ∷ m) = if j == k then remove k m else (j, w) ∷ remove k m

  -- `retain` with a test of the key.
  unfoldable pub retain_keys : (K → Bool) → HashMap K V → HashMap K V
  retain_keys p [] = []
  retain_keys p ((j, w) ∷ m) = if p j then (j, w) ∷ retain_keys p m else retain_keys p m

  unfoldable pub keys : HashMap K V → List K
  keys [] = []
  keys ((j, w) ∷ m) = j ∷ keys m

  pub get-insert :
      (k j : K) (v : V) (m : HashMap K V)
      → get j (insert k v m) ≡ (if k == j then some v else get j m)
  unfolding get insert
  get-insert k j v [] = refl
  get-insert k j v ((i, w) ∷ m) =
      ground (arith, e.eq_iff k j, e.eq_iff i k, e.eq_iff i j, get-insert k j v m)

  pub get-remove :
      (k j : K) (m : HashMap K V) → get j (remove k m) ≡ (if k == j then none else get j m)
  unfolding get remove
  get-remove k j [] = ground arith
  get-remove k j ((i, w) ∷ m) =
      ground (arith, e.eq_iff k j, e.eq_iff i k, e.eq_iff i j, get-remove k j m)

  pub get-retain_keys :
      (p : K → Bool) (j : K) (m : HashMap K V)
      → get j (retain_keys p m) ≡ (if p j then get j m else none)
  unfolding get retain_keys
  get-retain_keys p j [] = ground arith
  get-retain_keys p j ((i, w) ∷ m) = ground (arith, e.eq_iff i j, get-retain_keys p j m)

  -- No key stands twice.
  abbrev pub IsDistinct : HashMap K V → Type κ
  IsDistinct [] = Unit
  IsDistinct ((j, w) ∷ m) = (get j m ≡ none) × IsDistinct m

  pub insert-IsDistinct :
      (k : K) (v : V) (m : HashMap K V) → IsDistinct m → IsDistinct (insert k v m)
  unfolding insert get
  insert-IsDistinct k v [] d = (refl, tt)
  insert-IsDistinct k v ((j, w) ∷ m) d =
      ground (arith, e.eq_iff j k, e.eq_iff k j, insert-IsDistinct k v m, get-insert k j v m)

  pub remove-IsDistinct : (k : K) (m : HashMap K V) → IsDistinct m → IsDistinct (remove k m)
  unfolding remove
  remove-IsDistinct k [] d = tt
  remove-IsDistinct k ((j, w) ∷ m) d = ground (arith, remove-IsDistinct k m, get-remove k j m)

  pub contains-keys : (k : K) (m : HashMap K V) → contains (keys m) k ≡ is_some (get k m)
  unfolding keys get
  contains-keys k [] = refl
  contains-keys k ((j, w) ∷ m) = ground (arith, contains-keys k m)
