-- ===== src/Update/Manager/System/Cancelled.antt =====
-- `Cancel`, and every continuation of the daemon in which no check is begun.
use connective.Prelude.{Bool, true, false, ◌≡◌}
use connective.Update.Lifecycle.{cancelled}
use connective.Update.Manager.{Config, Manager}
use connective.Update.Manager.System.{System, Step, check_starts}

-- Does the step begin a check?
abbrev pub begins_check : {c : Config} {s t : System} → Step c s t → Bool
begins_check (check_starts s now manual) = true
begins_check _ = false

-- The states that are reached from `s` while no check is begun.
pub data Continued (c : Config) (s : System) : System → Type 0 where
  at_once : Continued c s s
  goes_on :
      {t u : System} → Continued c s t → (x : Step c t u) → begins_check x ≡ false → Continued c s u

-- What does not move: the contract, the offer, the cache and the assembled tree.
pub record Kept (m n : Manager) : Type 0 where
  pub contract_kept : n.pending_file ≡ m.pending_file
  pub offer_kept : n.pending ≡ m.pending
  pub cache_kept : n.cache ≡ m.cache
  pub saved_kept : n.saved_cache ≡ m.saved_cache
  pub tree_kept : n.assembled ≡ m.assembled

-- `n` is still cancelled, and holds what `m` held.
pub record IsIdle (m n : Manager) : Type 0 where
  pub still : n.state ≡ cancelled
  pub kept : Kept m n
