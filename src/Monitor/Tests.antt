-- ===== src/Monitor/Tests.antt =====
-- A watcher that confirms in two rounds, and the theorems at a few polls.
use connective.Prelude.{
  ◌≡◌, ◌≢◌, refl, List, [], ◌∷◌, Option, none, some, Text, codes, text_eq, arith,
}
use connective.Monitor.{Watch, start_watch, tick, ticks}
use connective.Monitor.Debounce.{Leads, watcher-Leads}

abbrev polls : List (Option Text)
polls = some (codes "b") ∷ none ∷ some (codes "c") ∷ some (codes "c") ∷ []

abbrev watching : Watch
watching = start_watch (some (codes "a"))

reports_once : (ticks 2 watching polls).changes ≡ (codes "a", codes "c") ∷ []
unfolding ticks tick start_watch text_eq
reports_once = refl

watcher-Leads_example :
    Leads watching.baseline (ticks 2 watching polls).changes (ticks 2 watching polls).baseline
watcher-Leads_example = watcher-Leads 2 (some (codes "a")) polls

abbrev flaky : List (Option Text)
flaky = some (codes "b") ∷ none ∷ some (codes "b") ∷ some (codes "b") ∷ []

differs : codes "b" ≢ watching.baseline
unfolding start_watch
differs e = ground (arith, e)
