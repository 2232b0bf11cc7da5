-- ===== src/Update/Manager/Control.antt =====
-- What the user may do meanwhile: `Cancel` and `Dismiss`.
use connective.Prelude.{ℕ, List, [], ◌∷◌, Option, none, some}
use connective.Update.Lifecycle.{
  State, idle, checking, update_available, cancelled, downloading, verifying, staging, restarting,
}
use connective.Update.Manager.{Config, Release, Manager, set_state, save_cache}

-- Calling the kept cancel function, if there is one.
abbrev pub call_cancel : Option ℕ → List ℕ → List ℕ
call_cancel none xs = xs
call_cancel (some x) xs = x ∷ xs

abbrev pub cancel_state : Config → State → Manager → Manager
cancel_state c downloading m = set_state c cancelled [] m
cancel_state c verifying m = set_state c cancelled [] m
cancel_state c staging m = set_state c cancelled [] m
cancel_state c checking m = set_state c cancelled [] m
cancel_state c restarting m = set_state c cancelled [] (record m { pending_file = none })
cancel_state c _ m = m

unfoldable pub cancel : Config → Manager → Manager
cancel c m =
    cancel_state c m.state
      (record m { cancelled_ctxs = call_cancel m.cancel_func m.cancelled_ctxs; cancel_func = none })

abbrev pub dismissable : State → Option Release → Option Release
dismissable update_available r = r
dismissable _ r = none

abbrev pub dismiss_release : Config → Option Release → Manager → Manager
dismiss_release c none m = m
dismiss_release c (some r) m =
    set_state c idle []
      (save_cache (record m { cache = record (m.cache) { dismissed = r.signed.manifest.version } }))

unfoldable pub dismiss : Config → Manager → Manager
dismiss c m = dismiss_release c (dismissable m.state m.pending) m
