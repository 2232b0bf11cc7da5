-- ===== src/Connection/History.antt =====
-- The transition log of the machine (`Transition`, `Reset`, `History`).
use connective.Prelude.{
  true, false, List, [], ◌∷◌, ◌++◌, none, some, ◌≡◌, ◌⊎◌, ◌↔◌, refl, inl, inr, arith, Bool-cases,
  Text, ℕ,
}
use connective.Connection.{
  State, disconnected, Event, allowed, offers, Machine, new_machine, notify, move_to, transition,
  reset, subscribe, set_server, Op, do_transition, do_reset, do_subscribe, do_set_server, apply,
  run, illegal_transition, state_eq,
}

-- An edge that the machine may take: one of the table, or a reset.
abbrev pub IsEdge : State → State → Type 0
IsEdge s t = (offers (allowed s) t ≡ true) ⊎ (t ≡ disconnected)

-- The log leads from one state to another by such edges, each event beginning where the last ended.
pub data Chain (s : State) : State → List Event → Type 0 where
  start : Chain s s []
  then :
      {t : State} {es : List Event} (ev : Event)
      → Chain s t es
      → ev.source ≡ t
      → IsEdge ev.source ev.target
      → Chain s ev.target (es ++ ev ∷ [])

abbrev pub IsLogged : Machine → Type 0
IsLogged m = Chain disconnected m.state m.history

move_to-IsLogged :
    (m : Machine) (to : State) (now : ℕ) (reason : Text)
    → IsEdge m.state to
    → IsLogged m
    → IsLogged (move_to m to now reason)
unfolding move_to
move_to-IsLogged m to now reason e h = then _ h refl e

transition-IsLogged :
    (m : Machine) (to : State) (now : ℕ) (reason : Text)
    → IsLogged m
    → IsLogged (transition m to now reason).0
unfolding transition
transition-IsLogged m to now reason h = elim (Bool-cases (offers (allowed m.state) to)) [
  | inl e ↦ rw e (move_to-IsLogged m to now reason (inl e) h)
  | inr e ↦ rw e h
]

reset-IsLogged :
    (m : Machine) (now : ℕ) (reason : Text) → IsLogged m → IsLogged (reset m now reason)
unfolding reset
reset-IsLogged m now reason h = elim (Bool-cases (state_eq m.state disconnected)) [
  | inl e ↦ rw e h
  | inr e ↦ rw e (move_to-IsLogged m disconnected now reason (inr refl) h)
]

apply-IsLogged : (m : Machine) (o : Op) → IsLogged m → IsLogged (apply m o)
unfolding apply subscribe set_server
apply-IsLogged m (do_transition to now reason) h = transition-IsLogged m to now reason h
apply-IsLogged m (do_reset now reason) h = reset-IsLogged m now reason h
apply-IsLogged m (do_subscribe fn) h = h
apply-IsLogged m (do_set_server id) h = h

run-IsLogged : (m : Machine) (os : List Op) → IsLogged m → IsLogged (run m os)
unfolding run
run-IsLogged m [] h = h
run-IsLogged m (o ∷ os) h = run-IsLogged (apply m o) os (apply-IsLogged m o h)

-- From a new machine, after any sequence of calls, the log is a connected path from `disconnected` to
-- the current state: each event starts in the state that the event before it ended in, and each is an
-- edge of the table or a reset to `disconnected`.
pub history_chain : (os : List Op) → IsLogged (run new_machine os)
unfolding new_machine
history_chain os = run-IsLogged new_machine os start

-- A transition succeeds exactly on an edge of the table.
pub transition_iff :
    (m : Machine) (to : State) (now : ℕ) (reason : Text)
    → ((transition m to now reason).1 ≡ none) ↔ (offers (allowed m.state) to ≡ true)
unfolding transition
transition_iff m to now reason = ground arith

-- A transition that is refused names the two states and changes nothing; one that is accepted moves
-- to the target, keeps server and listeners, and appends to the log one event from the old state to
-- the new one with the reason and the active server, which every listener is called with once.
pub transition_lem :
    (m : Machine) (to : State) (now : ℕ) (reason : Text)
    → let ev : Event = record {
      source = m.state;
      target = to;
      time = now;
      reason = reason;
      server = m.server_id;
    } in
      let (m', e) = transition m to now reason in
      ((offers (allowed m.state) to ≡ false)
        × (m' ≡ m)
        × (e ≡ some (illegal_transition m.state to)))
      ⊎ ((offers (allowed m.state) to ≡ true)
          × (e ≡ none)
          × (m'.state ≡ to)
          × (m'.server_id ≡ m.server_id)
          × (m'.listeners ≡ m.listeners)
          × (m'.history ≡ m.history ++ ev ∷ [])
          × (m'.delivered ≡ m.delivered ++ notify m.listeners ev))
unfolding transition
transition_lem m to now reason = elim (Bool-cases (offers (allowed m.state) to)) [
  | inl e ↦ inr (ground arith)
  | inr e ↦ inl (ground arith)
]
