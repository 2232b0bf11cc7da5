-- ===== src/Update/Manager/Download.antt =====
-- `Download`: three parts, before, between and after the two places where the mutex is released; the
-- transfer (`fetch`) and the hash (`verifyStaged`) run in between.
use connective.Prelude.{
  ℕ, suc, ◌+◌, ◌-◌, ◌*◌, ◌/◌, Bool, true, false, ltb, leb, ◌==◌, ◌&&◌, ◌||◌, if◌then◌else◌, List,
  [], ◌∷◌, ◌++◌, Option, none, some, Text, codes, text_eq, trim_space, map,
}
use connective.Prelude.Int.{ℤ, pos, negsuc}
use connective.Update.Lifecycle.{State, update_available, cancelled, failed, downloading, verifying}
use connective.Update.Manifest.{Artifact}
use connective.Update.Manager.{
  Config, Release, Progress, Manager, set_state, remove_file, create_file, file_hash, msg_untrusted,
  snapshot,
}

-- Is the context among the cancelled ones?
unfoldable pub is_cancelled : ℕ → List ℕ → Bool
is_cancelled x [] = false
is_cancelled x (y ∷ ys) = y == x || is_cancelled x ys

abbrev pub percent_of : ℕ → ℤ → ℕ × ℕ
percent_of done (pos (suc t)) = if ltb (suc t) done then (100, 1) else (done * 100, suc t)
percent_of done _ = (0, 1)

abbrev pub eta_of : ℕ → ℤ → ℕ → ℕ
eta_of done (pos (suc t)) speed =
    if ltb 0 speed && ltb done (suc t) then (suc t - done) / speed else 0
eta_of done _ speed = 0

-- `progressOf`
unfoldable pub progress_of : ℕ → ℤ → ℕ → Progress
progress_of done total speed = record {
  bytes_done = done;
  bytes_total = total;
  percent = percent_of done total;
  speed = speed;
  eta = eta_of done total speed;
}

-- The callback of the downloader: new numbers, and one event.
unfoldable pub on_progress : Config → ℕ → ℤ → ℕ → Manager → Manager
unfolding progress_of
on_progress c done total speed m =
    let m' = record m { progress = progress_of done total speed } in
    record m' { events = m'.events ++ snapshot c m' ∷ [] }

pub record DownloadTask : Type 0 where
  pub dl_ctx : ℕ
  pub dl_artifact : Artifact

pub record VerifyTask : Type 0 where
  pub vf_path : ℕ
  pub vf_artifact : Artifact

abbrev pub can_download : State → Option Release → Option Artifact → Option Artifact
can_download update_available (some _) (some a) = some a
can_download _ _ _ = none

-- context.WithCancel, whose cancel function is kept.
abbrev pub with_cancel : Manager → Manager
with_cancel m = record m { cancel_func = some m.next_ctx; next_ctx = suc m.next_ctx }

abbrev pub start_download : Config → Option Artifact → Manager → Manager × Option DownloadTask
start_download c none m = (m, none)
start_download c (some a) m = (
  with_cancel (set_state c downloading [] m),
  some (record { dl_ctx = m.next_ctx; dl_artifact = a }),
)

unfoldable pub download_begin : Config → Manager → Manager × Option DownloadTask
download_begin c m = start_download c (can_download m.state m.pending m.artifact) m

-- The transfer failed and left no file, where the flag says that the caller's deadline has passed, or it
-- left a file with bytes of this hash.
pub data FetchOutcome : Type 0 where
  fetch_failed : Bool → FetchOutcome
  fetched : Text → FetchOutcome

abbrev pub is_downloading : State → Bool
is_downloading downloading = true
is_downloading _ = false

abbrev pub is_verifying : State → Bool
is_verifying verifying = true
is_verifying _ = false

abbrev pub msg_download : Text
msg_download = codes "The download failed and was discarded."

abbrev pub start_verify : Config → ℕ → Artifact → Manager → Manager × Option VerifyTask
start_verify c p art m =
    if is_downloading m.state
    then (set_state c verifying [] m, some (record { vf_path = p; vf_artifact = art }))
    else (remove_file p m, none)

unfoldable pub download_fetched :
    Config → DownloadTask → FetchOutcome → Manager → Manager × Option VerifyTask
download_fetched c t (fetch_failed overdue) m =
    let m' = record m { cancel_func = none } in
    (
      if is_cancelled t.dl_ctx m.cancelled_ctxs || overdue
          then set_state c cancelled [] m'
          else set_state c failed msg_download m',
      none,
    )
download_fetched c t (fetched h) m =
    start_verify c m.next_file t.dl_artifact (create_file h (record m { cancel_func = none }))

-- strings.ToLower on the hexadecimal digits, in which the two hashes are written.
abbrev pub to_lower : ℕ → ℕ
to_lower c = if leb b'A' c && leb c b'Z' then c + 32 else c

-- `VerifySHA256`: a missing file fails as well.
unfoldable pub hash_matches : Option Text → Artifact → Bool
hash_matches none a = false
hash_matches (some h) a = text_eq (map to_lower h) (map to_lower (trim_space a.sha256))

-- The last part of `Download`; bad bytes were discarded by `verifyStaged` before the lock was taken.
unfoldable pub download_verified : Config → VerifyTask → Manager → Manager
download_verified c t m =
    let good = hash_matches (file_hash t.vf_path m.disk) t.vf_artifact in
    let m' = if good then m else remove_file t.vf_path m in
    if is_verifying m.state
    then (if good
        then set_state c update_available [] (record m' {
          staged = some t.vf_path;
          progress = elim (t.vf_artifact.size) [
            | pos n ↦ progress_of n (pos n) 0
            | negsuc n ↦ progress_of 0 (negsuc n) 0
          ];
        })
        else set_state c failed msg_untrusted m')
    else remove_file t.vf_path m'
