-- ===== src/Update/Lifecycle.antt =====
-- The life-cycle states of an update and the table of allowed transitions
-- (backend/internal/update/state.go).
use connective.Prelude.{Bool, true, false, ◌≡◌, ◌⊎◌, refl, inl, inr, arith}

pub data State : Type 0 where
  idle checking no_update update_available downloading verifying staging : State
  installing restarting updated cancelled failed rolled_back : State

-- The inner maps of `allowed`, read as functions: a missing key is false.
abbrev from_idle : State → Bool
from_idle checking = true
from_idle updated = true
from_idle failed = true
from_idle _ = false

abbrev from_checking : State → Bool
from_checking no_update = true
from_checking update_available = true
from_checking failed = true
from_checking cancelled = true
from_checking _ = false

abbrev from_no_update : State → Bool
from_no_update checking = true
from_no_update _ = false

abbrev from_update_available : State → Bool
from_update_available downloading = true
from_update_available staging = true
from_update_available checking = true
from_update_available cancelled = true
from_update_available idle = true
from_update_available _ = false

abbrev from_downloading : State → Bool
from_downloading verifying = true
from_downloading failed = true
from_downloading cancelled = true
from_downloading _ = false

abbrev from_verifying : State → Bool
from_verifying staging = true
from_verifying update_available = true
from_verifying failed = true
from_verifying cancelled = true
from_verifying _ = false

abbrev from_staging : State → Bool
from_staging installing = true
from_staging failed = true
from_staging cancelled = true
from_staging _ = false

abbrev from_installing : State → Bool
from_installing restarting = true
from_installing failed = true
from_installing rolled_back = true
from_installing _ = false

abbrev from_restarting : State → Bool
from_restarting updated = true
from_restarting failed = true
from_restarting rolled_back = true
from_restarting cancelled = true
from_restarting _ = false

abbrev from_updated : State → Bool
from_updated checking = true
from_updated _ = false

-- The three ends that a user may dismiss.
abbrev from_ended : State → Bool
from_ended checking = true
from_ended idle = true
from_ended _ = false

unfoldable pub allowed : State → State → Bool
allowed idle = from_idle
allowed checking = from_checking
allowed no_update = from_no_update
allowed update_available = from_update_available
allowed downloading = from_downloading
allowed verifying = from_verifying
allowed staging = from_staging
allowed installing = from_installing
allowed restarting = from_restarting
allowed updated = from_updated
allowed cancelled = from_ended
allowed failed = from_ended
allowed rolled_back = from_ended

infix 40 ◌⟶◌
abbrev pub ◌⟶◌ : State → State → Type 0
s ⟶ t = allowed s t ≡ true

pub data WayTo (goal : State) : State → Type 0 where
  here : WayTo goal goal
  step : {s : State} (t : State) → s ⟶ t → WayTo goal t → WayTo goal s

-- From every state a chain of allowed transitions leads to the next check: the life cycle has no
-- state in which an update is wedged for good.
pub recheck_reachable : (s : State) → WayTo checking s
unfolding allowed
recheck_reachable checking = here
recheck_reachable idle = step checking refl here
recheck_reachable no_update = step checking refl here
recheck_reachable update_available = step checking refl here
recheck_reachable updated = step checking refl here
recheck_reachable cancelled = step checking refl here
recheck_reachable failed = step checking refl here
recheck_reachable rolled_back = step checking refl here
recheck_reachable downloading = step failed refl (step checking refl here)
recheck_reachable verifying = step failed refl (step checking refl here)
recheck_reachable staging = step failed refl (step checking refl here)
recheck_reachable installing = step failed refl (step checking refl here)
recheck_reachable restarting = step failed refl (step checking refl here)

-- The way passes through the state.
abbrev pub Visits : {goal s : State} → State → WayTo goal s → Type 0
Visits {goal} x here = x ≡ goal
Visits x (step {s} t e w) = (x ≡ s) ⊎ Visits x w

installing_before : {s : State} (w : WayTo restarting s) → Visits installing w ⊎ (s ≡ restarting)
unfolding allowed
installing_before here = inr refl
installing_before (step {s} t e w) = elim (installing_before w) [
  | inl v ↦ inl (inr v)
  | inr q ↦ inl (inl (ground arith))
]

staging_before :
    {s : State} (w : WayTo restarting s) → Visits staging w ⊎ ((s ≡ installing) ⊎ (s ≡ restarting))
unfolding allowed
staging_before here = inr (inr refl)
staging_before (step {s} t e w) = elim (staging_before w) [
  | inl v ↦ inl (inr v)
  | inr (inl q) ↦ inl (inl (ground arith))
  | inr (inr q) ↦ inr (inl (ground arith))
]

abbrev offered : State → Bool
offered downloading = true
offered verifying = true
offered staging = true
offered installing = true
offered restarting = true
offered _ = false

available_before :
    {s : State} (w : WayTo restarting s) → Visits update_available w ⊎ (offered s ≡ true)
unfolding allowed
available_before here = inr refl
available_before (step {s} t e w) = elim (available_before w) [
  | inl v ↦ inl (inr v)
  | inr q ↦
      let last : (update_available ≡ s) ⊎ (offered s ≡ true) = ground arith in
      elim last [ inl l ↦ inl (inl l) | inr o ↦ inr o ]
]

-- Every way from idle to a restart passes through an available update, staging and installing.
pub restart_stages :
    (w : WayTo restarting idle) → Visits update_available w × Visits staging w × Visits installing w
restart_stages w = (
  elim (available_before w) [ inl v ↦ v | inr q ↦ ground arith ],
  elim (staging_before w) [ inl v ↦ v | inr (inl q) ↦ ground arith | inr (inr q) ↦ ground arith ],
  elim (installing_before w) [ inl v ↦ v | inr q ↦ ground arith ],
)
