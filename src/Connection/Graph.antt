-- ===== src/Connection/Graph.antt =====
-- The table `allowed` as a graph.
use connective.Prelude.{true, ◌≡◌, ◌⊎◌, refl, arith}
use connective.Connection.{
  State, disconnected, testing, selecting, connecting, starting_core, initializing_tun,
  applying_routing, connected, degraded, reconnecting, switching_server, disconnecting, error,
  allowed, offers,
}

infix 40 ◌⟶◌ ◌⟶*◌
abbrev pub ◌⟶◌ : State → State → Type 0
s ⟶ t = offers (allowed s) t ≡ true

pub data ◌⟶*◌ (s : State) : State → Type 0 where
  here : s ⟶* s
  step : {t u : State} → s ⟶* t → t ⟶ u → s ⟶* u

one : {s t : State} → s ⟶ t → s ⟶* t
one e = step here e

⟶*_trans : {s t u : State} → s ⟶* t → t ⟶* u → s ⟶* u
⟶*_trans p here = p
⟶*_trans p (step q e) = step (⟶*_trans p q) e

to_disconnected : (s : State) → s ⟶* disconnected
unfolding allowed offers
to_disconnected disconnected = here
to_disconnected testing = one refl
to_disconnected selecting = one refl
to_disconnected connecting = one refl
to_disconnected error = one refl
to_disconnected disconnecting = one refl
to_disconnected starting_core = step (one {t = disconnecting} refl) refl
to_disconnected initializing_tun = step (one {t = disconnecting} refl) refl
to_disconnected applying_routing = step (one {t = disconnecting} refl) refl
to_disconnected connected = step (one {t = disconnecting} refl) refl
to_disconnected degraded = step (one {t = disconnecting} refl) refl
to_disconnected reconnecting = step (one {t = disconnecting} refl) refl
to_disconnected switching_server = step (one {t = disconnecting} refl) refl

-- The way of a first connect.
to_connected : disconnected ⟶* connected
unfolding allowed offers
to_connected =
    step {t = applying_routing}
      (step {t = initializing_tun}
        (step {t = starting_core} (step {t = connecting} (one refl) refl) refl) refl)
      refl

from_disconnected : (t : State) → disconnected ⟶* t
unfolding allowed offers
from_disconnected disconnected = here
from_disconnected testing = one refl
from_disconnected selecting = one refl
from_disconnected connecting = one refl
from_disconnected error = step (one {t = testing} refl) refl
from_disconnected starting_core = step {t = connecting} (one refl) refl
from_disconnected initializing_tun =
    step {t = starting_core} (step {t = connecting} (one refl) refl) refl
from_disconnected applying_routing =
    step {t = initializing_tun}
      (step {t = starting_core} (step {t = connecting} (one refl) refl) refl) refl
from_disconnected connected = to_connected
from_disconnected degraded = step to_connected refl
from_disconnected reconnecting = step to_connected refl
from_disconnected switching_server = step to_connected refl
from_disconnected disconnecting = step to_connected refl

-- From every state every other can be reached by legal transitions: no state is a trap, and none is
-- dead. In particular every state can get back to `disconnected` without the safety valve `Reset`.
pub strongly_connected : (s t : State) → s ⟶* t
strongly_connected s t = ⟶*_trans (to_disconnected s) (from_disconnected t)

-- Teardown cannot be abandoned: from `disconnecting` the only ways lead to `disconnected` and `error`.
pub teardown_edges : (t : State) → disconnecting ⟶ t → (t ≡ disconnected) ⊎ (t ≡ error)
unfolding allowed offers
teardown_edges t h = ground arith
