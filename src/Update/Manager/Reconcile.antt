-- ===== src/Update/Manager/Reconcile.antt =====
-- The updater's files are consumed once, at the start of the daemon.
use connective.Prelude.{
  true, Bool-cases, if◌then◌else◌, Option, none, some, is_empty, ◌≡◌, ◌⊎◌, inl, inr, refl, ◌∙◌,
  arith,
}
use connective.Update.Lifecycle.{State, idle, updated, failed, allowed}
use connective.Update.Manager.{Config, Cache, Manager, PendingUpdate, set_state, save_cache}
use connective.Update.Manager.Boot.{
  BootFiles, ResultUpdate, reconcile_files, announce, init, fresh_manager, drop_contract,
  with_result,
}

drop_contract-twice : (o : Option PendingUpdate) → drop_contract (drop_contract o) ≡ drop_contract o
drop_contract-twice none = refl
drop_contract-twice (some p) = ground arith

-- A result is announced at most once: a second start finds nothing to announce, and leaves the files
-- as the first one did.
pub reconcile_files-once :
    (f : BootFiles) → reconcile_files (reconcile_files f).0 ≡ ((reconcile_files f).0, none)
unfolding reconcile_files
reconcile_files-once f = ground (arith, drop_contract-twice f.contract)

-- The state in which a result is announced.
abbrev pub boot_state : Option ResultUpdate → State
boot_state none = idle
boot_state (some r) = if r.result_ok then updated else failed

announce-state :
    (c : Config) (o : Option ResultUpdate) (m : Manager)
    → m.state ≡ idle
    → (announce c o m).state ≡ boot_state o
unfolding announce set_state allowed save_cache
announce-state c none m h = h
announce-state c (some r) m h = ground arith

announce-contract :
    (c : Config) (o : Option ResultUpdate) (m : Manager)
    → (announce c o m).pending_file ≡ m.pending_file
unfolding announce set_state save_cache
announce-contract c none m = refl
announce-contract c (some r) m = ground arith

dropped-cases :
    (o : Option PendingUpdate)
    → ((p : PendingUpdate) × (drop_contract o ≡ some p) × (is_empty p.pending_version ≡ true))
      ⊎ (drop_contract o ≡ none)
dropped-cases none = inr refl
dropped-cases (some p) = elim (Bool-cases (is_empty p.pending_version)) [
  | inl e ↦ inl (p, rw e refl, e)
  | inr e ↦ inr (rw e refl)
]

left_contract :
    (o : Option ResultUpdate) (f : BootFiles)
    → ((p : PendingUpdate) × ((with_result o f).0.contract ≡ some p)
        × (is_empty p.pending_version ≡ true))
      ⊎ ((with_result o f).0.contract ≡ none)
left_contract none f = dropped-cases f.contract
left_contract (some r) f = elim (Bool-cases (is_empty r.result_version)) [
  | inl e ↦ rw e (dropped-cases f.contract)
  | inr e ↦ rw e (inr refl)
]

-- The daemon starts in idle, or in updated or failed as the updater's result says, and never in a
-- busy state; the contract of an installation that was under way is dropped, unless it names no version.
pub init_lem :
    (c : Config) (cache : Cache) (f : BootFiles)
    → ((init c cache f).0.state ≡ boot_state (reconcile_files f).1)
      × ((init c cache f).0.pending_file ≡ (init c cache f).1.contract)
      × (((p : PendingUpdate) × ((init c cache f).1.contract ≡ some p)
            × (is_empty p.pending_version ≡ true))
          ⊎ ((init c cache f).1.contract ≡ none))
unfolding init
init_lem c cache f = (
  announce-state c (reconcile_files f).1 (fresh_manager cache (reconcile_files f).0.contract)
      (unfold fresh_manager in refl),
  announce-contract c (reconcile_files f).1 _ ∙ unfold fresh_manager in refl,
  unfold reconcile_files in (left_contract f.result_file f),
)
