-- ===== src/Tests/Chats.antt =====
-- The replay tracker and the outbound queue at concrete inputs.
use veilroom.Prelude.{List, [], false, some, ℕ, ◌∷◌, ◌≡◌, nat_eq, list_eq, pair_eq}
use veilroom.Prelude.HashMap
use veilroom.Chat.Replay.{ReplayTracker, accept, last_accepted}
use veilroom.Chat.Replay.History.{Arrival, accepted, Above, accept-refines, accepted-Above}
use veilroom.Chat.Outbound.Fifo.{IsFifo, run, start, Call, pushes, pops, run-new-IsFifo}

abbrev heard : ReplayTracker
heard = record { last = ((2, 1), 5) ∷ [] }

abbrev arrivals : List Arrival
arrivals =
    record { sender = 2; epoch = 1; sequence = 6 }
    ∷ record { sender = 2; epoch = 1; sequence = 6 }
    ∷ record { sender = 2; epoch = 1; sequence = 9 }
    ∷ []

accept-refines_example :
    ((accept heard 2 1 5).1 ≡ false) × (last_accepted (accept heard 2 1 5).0 2 1 ≡ some 5)
unfolding accept last_accepted HashMap.get
accept-refines_example = accept-refines heard 2 1 5 2 1

accepted-Above_example : Above (last_accepted heard 2 1) (accepted heard 2 1 arrivals)
accepted-Above_example = accepted-Above heard 2 1 arrivals

abbrev traffic : List (Call ℕ)
traffic = pushes 4 ∷ pushes 5 ∷ pops ∷ []

run-new-IsFifo_example : IsFifo (run (start 1) traffic)
run-new-IsFifo_example = run-new-IsFifo 1 traffic
