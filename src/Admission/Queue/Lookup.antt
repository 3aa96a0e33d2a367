-- ===== src/Admission/Queue/Lookup.antt =====
-- Submitting and taking join requests.
use veilroom.Prelude.{
  List, [], arith, find, length, none, refl, remove_first, some, ℕ, ◌++◌, ◌+◌, ◌<◌, ◌∷◌, ◌≡◌, ◌≤◌,
}
use veilroom.Event.{ConnectionId, RequestId}
use veilroom.Admission.Queue.{
  JoinApplication, JoinRequest, JoinRequestQueue, ok, err, full, unknown, push, take, has_id,
}
use veilroom.Admission.Queue.Bounds.{Rising, IsValid}

find_above :
    (id lo hi : ℕ) (rs : List JoinRequest) → id < lo → Rising lo hi rs → find (has_id id) rs ≡ none
find_above id lo hi [] k h = refl
find_above id lo hi (r ∷ rs) k h = ground (arith, find_above id (r.id + 1) hi rs)

find-remove_first :
    (id lo hi : ℕ) (rs : List JoinRequest)
    → Rising lo hi rs
    → find (has_id id) (remove_first (has_id id) rs) ≡ none
find-remove_first id lo hi [] h = refl
find-remove_first id lo hi (r ∷ rs) h =
    ground (arith, find-remove_first id (r.id + 1) hi rs, find_above id (r.id + 1) hi rs)

find-append_fresh :
    (id lo hi : ℕ) (rs : List JoinRequest) (r : JoinRequest)
    → hi ≤ id
    → r.id ≡ id
    → Rising lo hi rs
    → (find (has_id id) (rs ++ r ∷ []) ≡ some r) × (remove_first (has_id id) (rs ++ r ∷ []) ≡ rs)
find-append_fresh id lo hi [] r k e h = ground arith
find-append_fresh id lo hi (x ∷ rs) r k e h =
    ground (arith, find-append_fresh id (x.id + 1) hi rs r)

find-has_id :
    (id : ℕ) (rs : List JoinRequest) (r : JoinRequest) → find (has_id id) rs ≡ some r → r.id ≡ id
find-has_id id [] r h = cc
find-has_id id (x ∷ rs) r h = ground (arith, find-has_id id rs r)

-- Below the limit a submission gets the next id, and taking that id gives back the same application
-- of the same connection and leaves the earlier requests as they were.
pub take-push :
    (q : JoinRequestQueue) (c : ConnectionId) (a : JoinApplication)
    → IsValid q
    → length q.requests < q.limit
    → ((push q c a).1 ≡ ok q.next_id)
      × ((take (push q c a).0 q.next_id).1
          ≡ ok (record { id = q.next_id; connection = c; application = a }))
      × ((take (push q c a).0 q.next_id).0.requests ≡ q.requests)
unfolding push take
take-push q c a v h = ground (
  arith,
  find-append_fresh q.next_id 0 q.next_id q.requests
      (record { id = q.next_id; connection = c; application = a }),
  v.rising,
)

-- A submission to a full queue is refused with the limit and changes nothing.
pub push_full :
    (q : JoinRequestQueue) (c : ConnectionId) (a : JoinApplication)
    → q.limit ≤ length q.requests
    → push q c a ≡ (q, err (full q.limit))
unfolding push
push_full q c a h = ground arith

-- A request that was taken carries the id asked for, and cannot be taken again.
pub take_once :
    (q : JoinRequestQueue) (id : RequestId) (r : JoinRequest)
    → IsValid q
    → (take q id).1 ≡ ok r
    → (r.id ≡ id) × (take (take q id).0 id ≡ ((take q id).0, err (unknown id)))
unfolding take
take_once q id r v h =
    ground
      (arith, find-has_id id q.requests r, find-remove_first id 0 q.next_id q.requests v.rising)
