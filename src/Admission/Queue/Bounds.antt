-- ===== src/Admission/Queue/Bounds.antt =====
-- What every operation on the join-request queue keeps.
use veilroom.Prelude.{
  List, [], arith, length, length-append, remove_first, succ64_lem, u64_mod, ℕ, ◌++◌, ◌+◌, ◌<◌, ◌∷◌,
  ◌≡◌, ◌≤◌,
}
use veilroom.Event.{ConnectionId, RequestId}
use veilroom.Admission.Queue.{
  JoinApplication, JoinRequest, JoinRequestQueue, allocate_id, push, take, drain, has_id,
}

-- Ids rise along the list and stay between the bounds.
abbrev pub Rising : ℕ → ℕ → List JoinRequest → Type 0
Rising lo hi [] = lo ≤ hi
Rising lo hi (r ∷ rs) = (lo ≤ r.id) × (r.id < hi) × Rising (r.id + 1) hi rs

pub record IsValid (q : JoinRequestQueue) : Type 0 where
  pub bounded : length q.requests ≤ q.limit
  pub rising : Rising 0 q.next_id q.requests

Rising-le : (lo hi : ℕ) (rs : List JoinRequest) → Rising lo hi rs → lo ≤ hi
Rising-le lo hi [] h = h
Rising-le lo hi (r ∷ rs) h = omega arith

pub Rising-lower :
    (lo lo' hi : ℕ) (rs : List JoinRequest) → lo' ≤ lo → Rising lo hi rs → Rising lo' hi rs
Rising-lower lo lo' hi [] k h = omega arith
Rising-lower lo lo' hi (r ∷ rs) k h = (omega arith, h.1, h.2)

Rising-raise : (lo hi : ℕ) (rs : List JoinRequest) → Rising lo hi rs → Rising lo (hi + 1) rs
Rising-raise lo hi [] h = omega arith
Rising-raise lo hi (r ∷ rs) h = (h.0, omega arith, Rising-raise (r.id + 1) hi rs h.2)

Rising-append :
    (lo hi : ℕ) (rs : List JoinRequest) (r : JoinRequest)
    → r.id ≡ hi
    → Rising lo hi rs
    → Rising lo (hi + 1) (rs ++ r ∷ [])
Rising-append lo hi [] r e h = omega arith
Rising-append lo hi (x ∷ rs) r e h = (h.0, omega arith, Rising-append (x.id + 1) hi rs r e h.2)

pub Rising-remove_first :
    (id lo hi : ℕ) (rs : List JoinRequest)
    → Rising lo hi rs
    → Rising lo hi (remove_first (has_id id) rs)
Rising-remove_first id lo hi [] h = h
Rising-remove_first id lo hi (r ∷ rs) h =
    ground (arith, Rising-remove_first id (r.id + 1) hi rs, Rising-lower (r.id + 1) lo hi rs)

length-remove_first-le :
    (id : ℕ) (rs : List JoinRequest) → length (remove_first (has_id id) rs) ≤ length rs
length-remove_first-le id [] = omega arith
length-remove_first-le id (r ∷ rs) = ground (arith, length-remove_first-le id rs)

pub data Call : Type 0 where
  pushes : ConnectionId → JoinApplication → Call
  takes : RequestId → Call
  drains allocates : Call

pub step : JoinRequestQueue → Call → JoinRequestQueue
unfolding push take drain allocate_id
step q (pushes c a) = (push q c a).0
step q (takes id) = (take q id).0
step q drains = (drain q).0
step q allocates = (allocate_id q).0

-- As long as the id counter does not wrap, every operation, whether it succeeds or fails, keeps the
-- queue within its limit and the pending ids distinct, in the order of submission and below the next id.
pub queue_step-IsValid :
    (q : JoinRequestQueue) (c : Call) → q.next_id + 1 < u64_mod → IsValid q → IsValid (step q c)
unfolding step
queue_step-IsValid q (pushes c a) w v = ground (
  arith,
  succ64_lem q.next_id w,
  length-append q.requests (record { id = q.next_id; connection = c; application = a } ∷ []),
  Rising-append 0 q.next_id q.requests (record { id = q.next_id; connection = c; application = a }),
)
queue_step-IsValid q (takes id) w v =
    ground
      (arith, Rising-remove_first id 0 q.next_id q.requests, length-remove_first-le id q.requests)
queue_step-IsValid q drains w v = record {
  bounded = omega arith;
  rising = Rising-le 0 q.next_id q.requests v.rising;
}
queue_step-IsValid q allocates w v =
    ground (arith, succ64_lem q.next_id w, Rising-raise 0 q.next_id q.requests)
