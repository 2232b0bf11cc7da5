-- ===== src/Update/Downloader.antt =====
-- The downloader (backend/internal/update/download.go): attempts, resumption, the size bound and the hash.
-- What the network and the disk do is given as the answer to each attempt.
pub mod Whole
mod Tests
use connective.Prelude.{
  ℕ, zero, suc, ◌+◌, ◌==◌, ◌&&◌, ltb, not, Bool, true, false, if◌then◌else◌, List, [], ◌∷◌, ◌++◌,
  Option, none, some, Text, length, Result, ok, err,
}
use connective.Prelude.Int.{ℤ, pos, ltb_ℤ}

abbrev pub max_artifact_bytes : ℕ
max_artifact_bytes = 536870912

abbrev pub max_retries : ℕ
max_retries = 3

-- The bytes that a body gives read by read, and how it ends. `stops` is a cancelled context, `jams` a
-- write that fails. A read that gives no byte is left out.
pub data Source : Type 0 where
  ends breaks stops jams : Source
  gives : Text → Source → Source

-- `Downloader`; `sha256` is the hash in hexadecimal, `goes_on` the answer of `OnProgress`.
pub record Downloader : Type 0 where
  pub max_bytes : ℕ
  pub goes_on : ℕ → ℤ → Bool
  pub sha256 : Text → Text

-- `maxBytes`
unfoldable pub byte_limit : Downloader → ℕ
byte_limit d = if ltb 0 d.max_bytes then d.max_bytes else max_artifact_bytes

pub data DownloadError : Type 0 where
  cannot_stage refused fetch_broken too_long write_failed cannot_close canceled short_download
        out_of_tries :
      DownloadError

-- The staged file, and what was fed to the hash.
pub record Staged : Type 0 where
  pub file : Text
  pub hashed : Text

abbrev pub feed : Text → Staged → Staged
feed bytes s = record { file = s.file ++ bytes; hashed = s.hashed ++ bytes }

-- The loop of `attempt`.
unfoldable pub copy_source :
    Downloader → ℤ → Staged → Source → Staged × Result DownloadError (Unit {0})
unfolding byte_limit
copy_source d total s ends = (s, ok tt)
copy_source d total s breaks = (s, err fetch_broken)
copy_source d total s stops = (s, err canceled)
copy_source d total s jams = (s, err write_failed)
copy_source d total s (gives bytes src) =
    let next = copy_source d total (feed bytes s) src in
    let done = length s.file + length bytes in
    if ltb (byte_limit d) done
    then (s, err too_long)
    else if d.goes_on done total
    then next
    else (feed bytes s, err canceled)

-- What an attempt meets: an error before the body, a file of this host with its size, a whole body with
-- its length, or the rest of the body with the whole length that the server names.
pub data Answer : Type 0 where
  refusal : Answer
  local : Option ℤ → Source → Answer
  whole : ℤ → Source → Answer
  partial : Option ℤ → Source → Answer

-- The total is the expected size, or else what the answer says.
abbrev pub total_of : ℤ → Option ℤ → ℤ
total_of expected none = expected
total_of expected (some n) = if ltb_ℤ (pos 0) expected then expected else n

abbrev pub empty_staged : Staged
empty_staged = record { file = []; hashed = [] }

-- The staged file is hashed again when it is continued.
abbrev pub rehashed : Text → Staged
rehashed file = record { file = file; hashed = file }

abbrev pub with_total :
    ℤ → Staged × Result DownloadError (Unit {0}) → Text × Result DownloadError (ℤ × Staged)
with_total total (s, ok _) = (s.file, ok (total, s))
with_total total (s, err e) = (s.file, err e)

-- `attempt`: the file that is left, and the total with what was staged.
unfoldable pub attempt : Downloader → ℤ → Text → Answer → Text × Result DownloadError (ℤ × Staged)
unfolding copy_source
attempt d expected file refusal = (file, err refused)
attempt d expected file (local size src) =
    let t = total_of expected size in with_total t (copy_source d t empty_staged src)
attempt d expected file (whole len src) =
    let t = total_of expected (some len) in with_total t (copy_source d t empty_staged src)
attempt d expected file (partial len src) =
    let t = total_of expected len in with_total t (copy_source d t (rehashed file) src)

abbrev pub is_short : ℤ → ℕ → Bool
is_short (pos n) done = ltb 0 n && not (done == n)
is_short _ done = false

-- The file and its hash, unless it cannot be closed or is short of the total.
abbrev pub landed : Downloader → Bool → ℤ → Staged → Result DownloadError (Text × Text)
landed d close_fails total s =
    if close_fails
    then err cannot_close
    else if is_short total (length s.file)
    then err short_download
    else ok (s.file, d.sha256 s.hashed)

-- After an attempt: the result, or `next` with the file that is left.
abbrev pub attempted :
    Downloader
    → Bool
    → Bool
    → (Text → Result DownloadError (Text × Text))
    → Text × Result DownloadError (ℤ × Staged)
    → Result DownloadError (Text × Text)
attempted d close_fails stopped next (file, ok (total, s)) = landed d close_fails total s
attempted d close_fails stopped next (file, err e) = if stopped then err canceled else next file

-- The loop of `Fetch`, in which the size of the staged file can always be read; `stops_before` and `stops_after` say whether the context is cancelled around the
-- n-th attempt.
unfoldable pub fetch_from :
    Downloader
    → Bool
    → ℤ
    → (ℕ → Answer)
    → (ℕ → Bool)
    → (ℕ → Bool)
    → ℕ
    → ℕ
    → Text
    → Result DownloadError (Text × Text)
unfolding attempt
fetch_from d close_fails expected answers stops_before stops_after zero n file = err out_of_tries
fetch_from d close_fails expected answers stops_before stops_after (suc tries) n file =
    if stops_before n
    then err canceled
    else attempted d close_fails (stops_after n)
        (fetch_from d close_fails expected answers stops_before stops_after tries (suc n))
        (attempt d expected file (answers n))

-- `Downloader.Fetch`: the staged file with the hash observed. On an error the file is removed.
unfoldable pub fetch :
    Downloader
    → Bool
    → Bool
    → ℤ
    → (ℕ → Answer)
    → (ℕ → Bool)
    → (ℕ → Bool)
    → Result DownloadError (Text × Text)
unfolding fetch_from
fetch d staging_fails close_fails expected answers stops_before stops_after =
    if staging_fails
    then err cannot_stage
    else fetch_from d close_fails expected answers stops_before stops_after max_retries 0 []
