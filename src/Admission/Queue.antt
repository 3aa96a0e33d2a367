-- ===== src/Admission/Queue.antt =====
-- admission/queue.rs: the bounded queue of pending join requests.
pub mod Bounds
pub mod Lookup
use veilroom.Prelude.{
  Bool, Bytes, List, Option, Text, [], find, if◌then◌else◌, leb, length, none, remove_first, some,
  succ64, ℕ, ◌++◌, ◌==◌, ◌∷◌, nat_eq, list_eq, pair_eq,
}
use veilroom.Event.{ConnectionId, RequestId}

pub record JoinApplication : Type 0 where
  pub nickname : Text
  pub introduction : Option Text
  pub ed25519_pubkey : Bytes
  pub x25519_pubkey : Bytes
  pub signature : Bytes

pub record JoinRequest : Type 0 where
  pub id : RequestId
  pub connection : ConnectionId
  pub application : JoinApplication

pub data QueueError : Type 0 where
  full : ℕ → QueueError
  unknown : RequestId → QueueError

pub data Result {ℓ} (A : Type ℓ) : Type ℓ where
  ok : A → Result A
  err : QueueError → Result A

pub record JoinRequestQueue : Type 0 where
  pub limit : ℕ
  pub next_id : ℕ
  pub requests : List JoinRequest

unfoldable pub with_capacity : ℕ → JoinRequestQueue
with_capacity limit = record { limit = limit; next_id = 0; requests = [] }

unfoldable pub len : JoinRequestQueue → ℕ
len q = length q.requests

-- The id, and the queue after it.
unfoldable pub allocate_id : JoinRequestQueue → JoinRequestQueue × RequestId
allocate_id q = (record q { next_id = succ64 q.next_id }, q.next_id)

unfoldable pub push :
    JoinRequestQueue → ConnectionId → JoinApplication → JoinRequestQueue × Result RequestId
unfolding allocate_id
push q connection application =
    if leb q.limit (length q.requests)
    then (q, err (full q.limit))
    else (let (q', id) = allocate_id q in
        let request : JoinRequest = record {
          id = id;
          connection = connection;
          application = application;
        } in
        (record q' { requests = q'.requests ++ request ∷ [] }, ok id))

abbrev pub has_id : RequestId → JoinRequest → Bool
has_id id r = r.id == id

take_found :
    JoinRequestQueue → RequestId → Option JoinRequest → JoinRequestQueue × Result JoinRequest
take_found q id none = (q, err (unknown id))
take_found q id (some r) = (record q { requests = remove_first (has_id id) q.requests }, ok r)

unfoldable pub take : JoinRequestQueue → RequestId → JoinRequestQueue × Result JoinRequest
unfolding take_found
take q id = take_found q id (find (has_id id) q.requests)

unfoldable pub drain : JoinRequestQueue → JoinRequestQueue × List JoinRequest
drain q = (record q { requests = [] }, q.requests)
