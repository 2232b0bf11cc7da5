-- ===== src/Logging/Tests.antt =====
-- A logger for two entries, and the theorems at a few calls.
use connective.Prelude.{◌≡◌, refl, List, [], ◌∷◌, Text, codes}
use connective.Prelude.Int.{pos}
use connective.Logging.{
  debug, info, warn, error, Logger, new_logger, buffer_size, newest, log_entry, clear, set_sink,
  Call, logs, sets_sink, clears, run_call, run_calls,
}
use connective.Logging.Ring.{history, run_calls-history}

abbrev no_secrets : Text → Text
no_secrets s = s

abbrev calls : List Call
calls =
    logs 1 info (codes "lost")
    ∷ clears
    ∷ logs 2 warn (codes "a")
    ∷ logs 3 debug (codes "quiet")
    ∷ sets_sink
    ∷ logs 4 error (codes "b")
    ∷ logs 5 info (codes "c")
    ∷ []

abbrev after : Logger
after = run_calls no_secrets (new_logger info (pos 2)) calls

keeps_newest :
    after.entries
    ≡ record { at = 4; entry_level = error; message = codes "b" }
      ∷ record { at = 5; entry_level = info; message = codes "c" }
      ∷ []
unfolding run_calls run_call log_entry clear set_sink new_logger
keeps_newest = refl

run_calls-history_example :
    (run_calls no_secrets (new_logger info (pos 2)) calls).entries
    ≡ newest (buffer_size (pos 2)) (history no_secrets info [] calls)
run_calls-history_example = run_calls-history no_secrets info (pos 2) calls
