-- ===== src/Monitor.antt =====
-- The network watcher (backend/internal/monitor/monitor.go): the loop of `Watcher.Start`, one step for
-- each tick. A snapshot is what `Take` returns; `none` is an error.
pub mod Debounce
mod Tests
use connective.Prelude.{
  ℕ, zero, suc, leb, Bool, true, false, if◌then◌else◌, List, [], ◌∷◌, ◌++◌, Option, none, some,
  Text, text_eq,
}
use connective.Prelude.Int.{ℤ, pos}

-- The variables of the goroutine, and the calls of `OnChange`.
pub record Watch : Type 0 where
  pub baseline : Text
  pub candidate : Text
  pub rounds : ℕ
  pub changes : List (Text × Text)

-- `Confirm` defaults to 1.
abbrev pub confirm_of : ℤ → ℕ
confirm_of (pos (suc n)) = suc n
confirm_of _ = 1

-- The first snapshot is the baseline.
unfoldable pub start_watch : Option Text → Watch
start_watch first = record {
  baseline = elim first [ none ↦ [] | some s ↦ s ];
  candidate = [];
  rounds = 0;
  changes = [];
}

-- The rounds with this snapshot counted.
abbrev pub counted : Text → Watch → ℕ
counted cur w = if text_eq cur w.candidate then suc w.rounds else 1

unfoldable pub tick : ℕ → Watch → Option Text → Watch
tick confirm w none = w
tick confirm w (some cur) =
    if text_eq cur w.baseline
    then record w { candidate = []; rounds = 0 }
    else if leb confirm (counted cur w)
    then record w {
      baseline = cur;
      candidate = [];
      rounds = 0;
      changes = w.changes ++ (w.baseline, cur) ∷ [];
    }
    else record w { candidate = cur; rounds = counted cur w }

unfoldable pub ticks : ℕ → Watch → List (Option Text) → Watch
ticks confirm w [] = w
ticks confirm w (p ∷ ps) = ticks confirm (tick confirm w p) ps
