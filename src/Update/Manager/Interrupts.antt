-- ===== src/Update/Manager/Interrupts.antt =====
-- `Cancel` and `Dismiss`, each at the moment it is called, and a dismissed version that comes back.
use connective.Prelude.{
  ℕ, Bool, true, false, ==_refl, List, Option, none, some, text_eq_refl, if◌then◌else◌, ◌≡◌, arith,
}
use mathlib.Core.Path.{subst}
use connective.Update.Lifecycle.{
  State, idle, checking, no_update, update_available, cancelled, downloading, verifying, staging,
  restarting, allowed,
}
use connective.Update.Manifest.{Artifact}
use connective.Update.Manager.{
  Config, Release, Manager, set_state, save_cache, drop_staged, remove_file,
}
use connective.Update.Manager.Check.{accept_release}
use connective.Update.Manager.Download.{is_cancelled}
use connective.Update.Manager.Install.{is_restarting}
use connective.Update.Manager.Control.{cancel, dismiss, call_cancel}

-- The states in which something can be cancelled.
abbrev pub is_busy : State → Bool
is_busy checking = true
is_busy downloading = true
is_busy verifying = true
is_busy staging = true
is_busy restarting = true
is_busy _ = false

-- The context, if there is one, is cancelled.
abbrev pub Stopped : Option ℕ → List ℕ → Type 0
Stopped none ctxs = Unit
Stopped (some ctx) ctxs = is_cancelled ctx ctxs ≡ true

stopped : (o : Option ℕ) (ctxs : List ℕ) → Stopped o (call_cancel o ctxs)
unfolding is_cancelled
stopped none ctxs = tt
stopped (some x) ctxs = rw (==_refl x)

-- After `Cancel`: the context whose cancel function is kept, if one is kept, is cancelled, and the
-- function is forgotten; a busy state has become `cancelled` and every other stays; in `restarting`, and
-- only there, the contract for an updater that may still run is taken back; the offer, the artifact and
-- the staged file stay.
pub cancel_lem :
    (c : Config) (m : Manager)
    → Stopped m.cancel_func (cancel c m).cancelled_ctxs
      × ((cancel c m).cancel_func ≡ none)
      × ((cancel c m).state ≡ (if is_busy m.state then cancelled else m.state))
      × ((cancel c m).pending_file ≡ (if is_restarting m.state then none else m.pending_file))
      × ((cancel c m).pending ≡ m.pending)
      × ((cancel c m).artifact ≡ m.artifact)
      × ((cancel c m).staged ≡ m.staged)
cancel_lem c m = (
  subst (Stopped m.cancel_func) (contexts c m) (stopped m.cancel_func m.cancelled_ctxs),
  unfold cancel set_state allowed in (ground arith),
  unfold cancel set_state allowed in (ground arith),
  unfold cancel set_state allowed in (ground arith),
  unfold cancel set_state allowed in (ground arith),
  unfold cancel set_state allowed in (ground arith),
  unfold cancel set_state allowed in (ground arith),
)
  where
    contexts :
        (c : Config) (m : Manager)
        → call_cancel m.cancel_func m.cancelled_ctxs ≡ (cancel c m).cancelled_ctxs
    contexts c m = unfold cancel set_state in (ground arith)

-- `Dismiss` is remembered: after it, a check that brings the dismissed version again, signed and with
-- a usable artifact, ends with no update.
pub dismissed_stays :
    (c : Config) (now : ℕ) (m n : Manager) (old rel : Release) (art : Artifact)
    → m.state ≡ update_available
    → m.pending ≡ some old
    → n.state ≡ checking
    → n.cache.dismissed ≡ (dismiss c m).cache.dismissed
    → rel.signed.manifest.version ≡ old.signed.manifest.version
    → ((dismiss c m).state ≡ idle) × ((accept_release c now rel art n).state ≡ no_update)
dismissed_stays c now m n old rel art h p k d e = (
  unfold dismiss set_state allowed save_cache in (ground arith),
  unfold accept_release set_state allowed save_cache drop_staged remove_file in
      (ground (arith, same, text_eq_refl rel.signed.manifest.version)),
)
  where
    same : n.cache.dismissed ≡ rel.signed.manifest.version
    same = unfold dismiss set_state save_cache in (ground arith)
