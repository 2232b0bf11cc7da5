-- ===== src/Connection.antt =====
-- The connection state machine (backend/internal/connection/machine.go): the states, the table of
-- legal edges and the operations of `Machine`. A `Machine` is the struct under its mutex, so each
-- operation is one step on the whole record. A listener is known by a number, and `delivered` records
-- the calls that were made, in order. The clock's reading is an argument.
pub mod History
pub mod Graph
pub mod Delivery
mod Tests
use connective.Prelude.{
  ℕ, zero, suc, Bool, true, false, ◌||◌, ◌==◌, ==_iff, ==_refl, List, [], ◌∷◌, ◌++◌, Option, none,
  some, if◌then◌else◌, Text, ◌≡◌, ◌↔◌, refl, sym, ap, ◌∙◌,
}

pub data State : Type 0 where
  disconnected testing selecting connecting starting_core initializing_tun : State
  applying_routing connected degraded reconnecting switching_server disconnecting error : State

-- `==` on states: two states are equal when their places in the list of constants are.
abbrev state_index : State → ℕ
state_index disconnected = 0
state_index testing = 1
state_index selecting = 2
state_index connecting = 3
state_index starting_core = 4
state_index initializing_tun = 5
state_index applying_routing = 6
state_index connected = 7
state_index degraded = 8
state_index reconnecting = 9
state_index switching_server = 10
state_index disconnecting = 11
state_index error = 12

all_states : List State
all_states =
    disconnected ∷ testing ∷ selecting ∷ connecting ∷ starting_core ∷ initializing_tun
    ∷ applying_routing ∷ connected ∷ degraded ∷ reconnecting ∷ switching_server ∷ disconnecting
    ∷ error ∷ []

at_index : List State → ℕ → State
at_index [] n = error
at_index (s ∷ r) zero = s
at_index (s ∷ r) (suc n) = at_index r n

at_index_lem : (s : State) → at_index all_states (state_index s) ≡ s
unfolding at_index all_states
at_index_lem disconnected = refl
at_index_lem _ = refl

unfoldable pub state_eq : State → State → Bool
state_eq a b = state_index a == state_index b

pub state_eq_iff : (a b : State) → (state_eq a b ≡ true) ↔ (a ≡ b)
unfolding state_eq
state_eq_iff a b = (
  λ h.
      sym (at_index_lem a)
      ∙ (ap (at_index all_states) ((==_iff (state_index a) (state_index b)).0 h) ∙ at_index_lem b),
  λ e. rw e (==_refl (state_index b)),
)

pub record Event : Type 0 where
  pub source : State
  pub target : State
  pub time : ℕ
  pub reason : Text
  pub server : Text

-- The map `allowed`.
unfoldable pub allowed : State → List State
allowed disconnected = testing ∷ selecting ∷ connecting ∷ []
allowed testing = selecting ∷ disconnected ∷ error ∷ []
allowed selecting = connecting ∷ disconnected ∷ error ∷ []
allowed connecting = starting_core ∷ disconnected ∷ error ∷ []
allowed starting_core = initializing_tun ∷ reconnecting ∷ disconnecting ∷ error ∷ []
allowed initializing_tun = applying_routing ∷ reconnecting ∷ disconnecting ∷ error ∷ []
allowed applying_routing = connected ∷ reconnecting ∷ disconnecting ∷ error ∷ []
allowed connected = degraded ∷ switching_server ∷ reconnecting ∷ disconnecting ∷ error ∷ []
allowed degraded = connected ∷ switching_server ∷ reconnecting ∷ disconnecting ∷ error ∷ []
allowed reconnecting = selecting ∷ connecting ∷ connected ∷ disconnecting ∷ error ∷ []
allowed switching_server = connecting ∷ connected ∷ degraded ∷ disconnecting ∷ error ∷ []
allowed disconnecting = disconnected ∷ error ∷ []
allowed error = disconnected ∷ selecting ∷ reconnecting ∷ []

-- The loop of `Transition` over the successors: does one of them equal `to`?
unfoldable pub offers : List State → State → Bool
unfolding state_eq
offers [] to = false
offers (next ∷ rest) to = state_eq next to || offers rest to

pub record Machine : Type 0 where
  pub state : State
  pub server_id : Text
  pub listeners : List ℕ
  pub history : List Event
  pub delivered : List (ℕ × Event)

unfoldable pub new_machine : Machine
new_machine = record {
  state = disconnected;
  server_id = [];
  listeners = [];
  history = [];
  delivered = [];
}

-- `for _, fn := range m.listeners { fn(ev) }`
unfoldable pub notify : List ℕ → Event → List (ℕ × Event)
notify [] ev = []
notify (fn ∷ fns) ev = (fn, ev) ∷ notify fns ev

-- What `Transition` and `Reset` do once the move is decided.
unfoldable pub move_to : Machine → State → ℕ → Text → Machine
move_to m to now reason =
    let ev : Event = record {
      source = m.state;
      target = to;
      time = now;
      reason = reason;
      server = m.server_id;
    } in
    record m {
      state = to;
      history = m.history ++ ev ∷ [];
      delivered = m.delivered ++ notify m.listeners ev;
    }

pub data MachineError : Type 0 where
  illegal_transition : State → State → MachineError

unfoldable pub transition : Machine → State → ℕ → Text → Machine × Option MachineError
unfolding move_to
transition m to now reason =
    if offers (allowed m.state) to
    then (move_to m to now reason, none)
    else (m, some (illegal_transition m.state to))

unfoldable pub reset : Machine → ℕ → Text → Machine
unfolding move_to state_eq
reset m now reason = if state_eq m.state disconnected then m else move_to m disconnected now reason

unfoldable pub subscribe : Machine → ℕ → Machine
subscribe m fn = record m { listeners = m.listeners ++ fn ∷ [] }

unfoldable pub set_server : Machine → Text → Machine
set_server m id = record m { server_id = id }

-- `Connected`: is traffic flowing?
unfoldable pub is_connected : Machine → Bool
unfolding state_eq
is_connected m = state_eq m.state connected || state_eq m.state degraded

-- A call of one of the exported operations.
pub data Op : Type 0 where
  do_transition : State → ℕ → Text → Op
  do_reset : ℕ → Text → Op
  do_subscribe : ℕ → Op
  do_set_server : Text → Op

unfoldable pub apply : Machine → Op → Machine
apply m (do_transition to now reason) = (transition m to now reason).0
apply m (do_reset now reason) = reset m now reason
apply m (do_subscribe fn) = subscribe m fn
apply m (do_set_server id) = set_server m id

-- The mutex puts the calls of all goroutines in one order.
unfoldable pub run : Machine → List Op → Machine
run m [] = m
run m (o ∷ os) = run (apply m o) os
