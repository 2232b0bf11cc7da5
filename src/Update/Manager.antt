-- ===== src/Update/Manager.antt =====
-- The update manager (backend/internal/update/manager.go): its state and what every handler uses.
-- A handler that releases the mutex is cut there: each part is one function on the state, and what it
-- hands to the next part is a task (`Task`). A staged file is known by the number of its creation,
-- and `disk` gives the SHA-256 of its bytes; a context is known by a number as well. Moments are
-- nanoseconds, and seconds of Unix time are their quotient by 10^9.
pub mod Check
pub mod Backoff
pub mod Outcomes
pub mod Interrupts
pub mod Reconcile
pub mod Download
pub mod Install
pub mod Control
pub mod Boot
pub mod System
pub mod Tests
use connective.Prelude.{
  ℕ, zero, suc, ◌+◌, ◌-◌, ◌*◌, ◌/◌, Bool, true, false, ltb, leb, ◌==◌, ◌||◌, not, ◌&&◌,
  if◌then◌else◌, List, [], ◌∷◌, ◌++◌, Option, none, some, Text, codes, text_eq,
}
use connective.Prelude.Int.{ℤ, pos, negsuc}
use connective.Update.Version.{valid_channel}
use connective.Update.Lifecycle.{State, allowed}
use connective.Update.Manifest.{Artifact, Manifest, SignedManifest, Crypto}

-- What is fixed while the daemon runs. The channel is among it, although the code reads it from the
-- settings whenever it needs it.
pub record Config : Type 0 where
  pub crypto : Crypto
  pub keys : List (Text × Text)
  pub current : Text
  pub channel : Text
  pub platform : Text
  pub arch : Text
  pub test_apply : Bool

-- `CheckCache`
pub record Cache : Type 0 where
  pub last_check_unix : ℕ
  pub last_success_unix : ℕ
  pub last_seen_version : Text
  pub cache_channel : Text
  pub dismissed : Text
  pub fail_count : ℕ

pub record Release : Type 0 where
  pub signed : SignedManifest
  pub source : Text

-- `Percent` is kept as an exact fraction; the code rounds it to a float64.
pub record Progress : Type 0 where
  pub bytes_done : ℕ
  pub bytes_total : ℤ
  pub percent : ℕ × ℕ
  pub speed : ℕ
  pub eta : ℕ

pub record Info : Type 0 where
  pub info_version : Text
  pub info_channel : Text
  pub info_date : Text
  pub info_notes : List Text
  pub info_size : ℤ
  pub info_type : Text
  pub info_min : Text

pub record Status : Type 0 where
  pub status_state : State
  pub info : Option Info
  pub status_progress : Progress
  pub status_error : Text
  pub status_channel : Text
  pub status_current : Text
  pub last_check : ℕ
  pub is_staged : Bool

-- The contract for the updater process (`PendingUpdate`).
pub record PendingUpdate : Type 0 where
  pub pending_version : Text
  pub tree : Text
  pub at_unix : ℕ

pub record Manager : Type 0 where
  pub state : State
  pub error : Text
  pub progress : Progress
  pub cache : Cache
  pub pending : Option Release
  pub artifact : Option Artifact
  pub staged : Option ℕ
  pub assembled : Text
  pub last_poll : Option ℕ
  pub cancel_func : Option ℕ
  -- the world around: contexts, files, events
  pub next_ctx : ℕ
  pub cancelled_ctxs : List ℕ
  pub next_file : ℕ
  pub disk : List (ℕ × Text)
  pub saved_cache : Cache
  pub pending_file : Option PendingUpdate
  pub events : List Status

abbrev pub unix : ℕ → ℕ
unix now = now / 1000000000

-- `channel()`
unfoldable pub channel_of : Config → Text
channel_of c = if valid_channel c.channel then c.channel else codes "stable"

abbrev pub info_of : Option Release → Option Artifact → Option Info
info_of none a = none
info_of (some r) a = some (record {
  info_version = r.signed.manifest.version;
  info_channel = r.signed.manifest.channel;
  info_date = r.signed.manifest.release_date;
  info_notes = r.signed.manifest.release_notes;
  info_size = elim a [ none ↦ pos 0 | some x ↦ x.size ];
  info_type = elim a [ none ↦ [] | some x ↦ x.type ];
  info_min = r.signed.manifest.min_version;
})

abbrev pub is_some {ℓ} : {A : Type ℓ} → Option A → Bool
is_some none = false
is_some (some _) = true

unfoldable pub snapshot : Config → Manager → Status
snapshot c m = record {
  status_state = m.state;
  info = info_of m.pending m.artifact;
  status_progress = m.progress;
  status_error = m.error;
  status_channel = channel_of c;
  status_current = c.current;
  last_check = m.cache.last_check_unix;
  is_staged = is_some m.staged;
}

-- `setState`: a forbidden transition is logged and ignored.
unfoldable pub set_state : Config → State → Text → Manager → Manager
set_state c to msg m =
    let m' = record m { state = to; error = msg } in
    if allowed m.state to then record m' { events = m.events ++ snapshot c m' ∷ [] } else m

unfoldable pub save_cache : Manager → Manager
save_cache m = record m { saved_cache = m.cache }

-- os.Remove
unfoldable pub delete_file : ℕ → List (ℕ × Text) → List (ℕ × Text)
delete_file p [] = []
delete_file p ((q, h) ∷ d) = let rest = delete_file p d in if q == p then rest else (q, h) ∷ rest

unfoldable pub file_hash : ℕ → List (ℕ × Text) → Option Text
file_hash p [] = none
file_hash p ((q, h) ∷ d) = let rest = file_hash p d in if q == p then some h else rest

unfoldable pub remove_file : ℕ → Manager → Manager
unfolding delete_file
remove_file p m = record m { disk = delete_file p m.disk }

-- A new temporary file with bytes of this hash.
unfoldable pub create_file : Text → Manager → Manager
create_file h m = record m { disk = (m.next_file, h) ∷ m.disk; next_file = suc m.next_file }

abbrev pub drop_path : Option ℕ → Manager → Manager
drop_path none m = m
drop_path (some p) m = record (remove_file p m) { staged = none }

-- `if m.staged != "" { os.Remove(m.staged); m.staged = "" }`
unfoldable pub drop_staged : Manager → Manager
drop_staged m = drop_path m.staged m

abbrev pub msg_untrusted : Text
msg_untrusted = codes "This update could not be verified and was not installed."

abbrev pub msg_not_installed : Text
msg_not_installed = codes "The update could not be installed. Your current version is still safe."
