-- ===== src/Logging.antt =====
-- The leveled logger with its bounded buffer (backend/internal/logging/logging.go). A message is a
-- text that is formatted already; the sink is whether one is set, and what it is called with.
pub mod Ring
mod Tests
use connective.Prelude.{
  ℕ, zero, suc, ◌-◌, ltb, leb, Bool, true, false, if◌then◌else◌, List, [], ◌∷◌, ◌++◌, Text, length,
  drop, keep,
}
use connective.Prelude.Int.{ℤ, pos, negsuc}

pub data Level : Type 0 where
  debug info warn error : Level

-- The number of a level (iota).
abbrev pub level_index : Level → ℕ
level_index debug = 0
level_index info = 1
level_index warn = 2
level_index error = 3

pub record Entry : Type 0 where
  pub at : ℕ
  pub entry_level : Level
  pub message : Text

pub record Logger : Type 0 where
  pub level : Level
  pub entries : List Entry
  pub max : ℕ
  pub has_sink : Bool
  pub sunk : List Entry

abbrev pub buffer_size : ℤ → ℕ
buffer_size (pos (suc n)) = suc n
buffer_size _ = 2000

-- `New`
unfoldable pub new_logger : Level → ℤ → Logger
new_logger level max = record {
  level = level;
  entries = [];
  max = buffer_size max;
  has_sink = false;
  sunk = [];
}

unfoldable pub set_sink : Logger → Logger
set_sink l = record l { has_sink = true }

-- The newest `n` of the list.
abbrev pub newest {ℓ} : {A : Type ℓ} → ℕ → List A → List A
newest n xs = if ltb n (length xs) then drop (length xs - n) xs else xs

-- `log`; `redact` is the function `Redact`.
unfoldable pub log_entry : (Text → Text) → ℕ → Level → Text → Logger → Logger
log_entry redact now level msg l =
    let e : Entry = record { at = now; entry_level = level; message = redact msg } in
    if ltb (level_index level) (level_index l.level) then l else record l {
      entries = newest l.max (l.entries ++ e ∷ []);
      sunk = if l.has_sink then l.sunk ++ e ∷ [] else l.sunk;
    }

abbrev pub is_at_least : Level → Entry → Bool
is_at_least min e = leb (level_index min) (level_index e.entry_level)

abbrev pub limit {ℓ} : {A : Type ℓ} → ℤ → List A → List A
limit (pos (suc n)) xs = newest (suc n) xs
limit _ xs = xs

-- `Recent`
unfoldable pub recent : ℤ → Level → Logger → List Entry
recent n min l = limit n (keep (is_at_least min) l.entries)

unfoldable pub clear : Logger → Logger
clear l = record l { entries = [] }

-- The calls of a logger.
pub data Call : Type 0 where
  logs : ℕ → Level → Text → Call
  sets_sink : Call
  clears : Call

unfoldable pub run_call : (Text → Text) → Logger → Call → Logger
run_call redact l (logs now level msg) = log_entry redact now level msg l
run_call redact l sets_sink = set_sink l
run_call redact l clears = clear l

unfoldable pub run_calls : (Text → Text) → Logger → List Call → Logger
run_calls redact l [] = l
run_calls redact l (c ∷ cs) = run_calls redact (run_call redact l c) cs
