-- ===== src/Protocol/State/Accepts.antt =====
-- The acceptance table of connection states.
use veilroom.Prelude.{arith, true, ◌↔◌, ◌≡◌, ◌≢◌}
use veilroom.Protocol.Ids.{control, MessageClass}
use veilroom.Protocol.State.{ConnectionState, disconnected, tor_connecting, accepts}

-- A class of messages other than control is accepted in one connection state at most.
pub accepts_once :
    (s s' : ConnectionState) (c : MessageClass)
    → c ≢ control
    → accepts s c ≡ true
    → accepts s' c ≡ true
    → s ≡ s'
unfolding accepts
accepts_once s s' c h a b = ground arith

-- Control messages are accepted in every state but before the connection and while Tor connects.
pub accepts-control :
    (s : ConnectionState) → (accepts s control ≡ true) ↔ ((s ≢ disconnected) × (s ≢ tor_connecting))
unfolding accepts
accepts-control s = (λ h. ground arith, λ h. ground arith)
