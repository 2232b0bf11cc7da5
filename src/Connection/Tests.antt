-- ===== src/Connection/Tests.antt =====
-- Runs of the machine, and the theorems at concrete inputs.
use connective.Prelude.{◌≡◌, refl, List, [], ◌∷◌, ◌++◌, codes, arith}
use connective.Connection
use connective.Connection.{
  State, disconnected, testing, connecting, starting_core, connected, error, disconnecting, Event,
  allowed, offers, Machine, new_machine, notify, transition, reset, subscribe, is_connected, Op,
  do_transition, do_reset, do_subscribe, do_set_server, run, illegal_transition,
}
use connective.Connection.History.{IsLogged, history_chain}
use connective.Connection.Delivery.{received, listener_follows_log}

abbrev connect : List Op
connect =
    do_set_server (codes "s1")
    ∷ do_transition connecting 5 (codes "user")
    ∷ do_subscribe 8
    ∷ do_transition connected 6 []
    ∷ do_transition starting_core 7 []
    ∷ do_reset 9 (codes "stop")
    ∷ []

-- The jump from `connecting` to `connected` is refused.
connect_ends : (run (subscribe new_machine 3) connect).state ≡ disconnected
unfolding run new_machine subscribe Connection.apply transition reset offers allowed
    Connection.set_server
connect_ends = refl

history_chain_example : IsLogged (run new_machine connect)
history_chain_example = history_chain connect

listener_follows_log_example :
    let m' = run (subscribe new_machine 3) connect in
    (news : List Event) × (m'.history ≡ new_machine.history ++ news)
    × (received 3 m'.delivered ≡ received 3 new_machine.delivered ++ news)
unfolding new_machine
listener_follows_log_example = listener_follows_log 3 new_machine connect refl (omega arith)
