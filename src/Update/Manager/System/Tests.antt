-- ===== src/Update/Manager/System/Tests.antt =====
-- A run of the daemon from its start to an installation, and the trust theorems at its states.
use connective.Prelude.{
  ◌≡◌, refl, [], ok, none, some, codes, true, text_eq, trim_space, split, is_space,
}
use connective.Update.Version.Number.{atoi}
use connective.Update.Version.{
  parse_version, component, compare_version, compare_pre, valid_channel,
}
use connective.Update.Lifecycle.{allowed}
use connective.Update.Manifest.{
  select_artifact, scan, consider, fits_current, verify_manifest, find_key, hex_decode, hex_encode,
  sign_manifest,
}
use connective.Update.Manifest.Tests.{delta, sha}
use connective.Update.Manager.{
  set_state, save_cache, drop_staged, create_file, file_hash, channel_of,
}
use connective.Update.Manager.Check.{
  Query, start_check, run_check, too_soon, run_answer, accept_release,
}
use connective.Update.Manager.Download.{
  DownloadTask, VerifyTask, fetched, download_begin, download_fetched, download_verified,
  hash_matches,
}
use connective.Update.Manager.Install.{InstallTask, install_begin}
use connective.Update.Manager.Control.{cancel}
use connective.Update.Manager.Boot.{BootFiles, init, reconcile_files, announce, fresh_manager}
use connective.Update.Manager.Tests.{config, cache, release, day}
use connective.Update.Manager.System.{
  querying, fetching, hashing, assembling, System, Pick, first, check_starts, check_answers,
  download_starts, fetch_ends, hash_ends, install_starts, Reach, here, next, boot, add_query,
  add_fetch, add_hash, add_install,
}
use connective.Update.Manager.System.Trust.{IsTrusted}
use connective.Update.Manager.System.Installed.{
  Vouched, installs-Vouched, stages-Vouched, offers-IsTrusted,
}

abbrev no_files : BootFiles
no_files = record { result_file = none; contract = none }

abbrev booted : System
booted = boot config cache no_files

abbrev asked : System
asked = record {
  mgr = (start_check config day true booted.mgr).0;
  tasks = add_query (start_check config day true booted.mgr).1 booted.tasks;
}

abbrev answered : System
answered = record { mgr = run_check config day (ok release) asked.mgr; tasks = [] }

abbrev downloading : System
downloading = record {
  mgr = (download_begin config answered.mgr).0;
  tasks = add_fetch (download_begin config answered.mgr).1 answered.tasks;
}

abbrev transfer : DownloadTask
transfer = record { dl_ctx = 0; dl_artifact = delta }

abbrev transferred : System
transferred = record {
  mgr = (download_fetched config transfer (fetched sha) downloading.mgr).0;
  tasks = add_hash (download_fetched config transfer (fetched sha) downloading.mgr).1 [];
}

abbrev verify : VerifyTask
verify = record { vf_path = 0; vf_artifact = delta }

abbrev verified : System
verified = record { mgr = download_verified config verify transferred.mgr; tasks = [] }

abbrev installing : System
installing = record {
  mgr = (install_begin config verified.mgr).0;
  tasks = add_install (install_begin config verified.mgr).1 verified.tasks;
}

abbrev query : Query
query = record {
  query_channel = codes "stable";
  query_platform = config.platform;
  query_arch = config.arch;
  query_current = config.current;
}

asked_task : Pick (querying query) asked.tasks []
unfolding init reconcile_files announce fresh_manager start_check channel_of valid_channel text_eq
    set_state allowed save_cache too_soon
asked_task = first

download_task : Pick (fetching transfer) downloading.tasks []
unfolding init reconcile_files announce fresh_manager start_check set_state allowed save_cache
    run_check run_answer accept_release verify_manifest find_key text_eq hex_decode hex_encode
    sign_manifest trim_space is_space select_artifact scan consider fits_current parse_version
    component split atoi compare_version compare_pre drop_staged download_begin too_soon
download_task = first

hash_task : Pick (hashing verify) transferred.tasks []
unfolding init reconcile_files announce fresh_manager start_check set_state allowed save_cache
    run_check run_answer accept_release verify_manifest find_key text_eq hex_decode hex_encode
    sign_manifest trim_space is_space select_artifact scan consider fits_current parse_version
    component split atoi compare_version compare_pre drop_staged download_begin too_soon
    download_fetched create_file
hash_task = first

abbrev install_task : InstallTask
install_task = record {
  in_ctx = 1;
  in_version = codes "0.2.10";
  in_release = release;
  in_staged = 0;
  is_delta = true;
}

tree_task : Pick (assembling install_task) installing.tasks []
unfolding init reconcile_files announce fresh_manager start_check set_state allowed save_cache
    run_check run_answer accept_release verify_manifest find_key text_eq hex_decode hex_encode
    sign_manifest trim_space is_space select_artifact scan consider fits_current parse_version
    component split atoi compare_version compare_pre drop_staged download_begin too_soon
    download_fetched create_file download_verified file_hash hash_matches install_begin
tree_task = first

verified_reached : Reach config booted verified
verified_reached =
    next
      (next
        (next
          (next (next here (check_starts booted day true))
            (check_answers asked day query (ok release) [] asked_task))
          (download_starts answered))
        (fetch_ends downloading transfer (fetched sha) [] download_task))
      (hash_ends transferred verify [] hash_task)

staged_now : verified.mgr.staged ≡ some 0
unfolding init reconcile_files announce fresh_manager start_check set_state allowed save_cache
    run_check run_answer accept_release verify_manifest find_key text_eq hex_decode hex_encode
    sign_manifest trim_space is_space select_artifact scan consider fits_current parse_version
    component split atoi compare_version compare_pre drop_staged download_begin too_soon
    download_fetched create_file download_verified file_hash hash_matches
staged_now = refl

file_now : file_hash 0 verified.mgr.disk ≡ some sha
unfolding init reconcile_files announce fresh_manager start_check set_state allowed save_cache
    run_check run_answer accept_release verify_manifest find_key text_eq hex_decode hex_encode
    sign_manifest trim_space is_space select_artifact scan consider fits_current parse_version
    component split atoi compare_version compare_pre drop_staged download_begin too_soon
    download_fetched create_file download_verified file_hash hash_matches
file_now = refl

file_still : file_hash 0 installing.mgr.disk ≡ some sha
unfolding init reconcile_files announce fresh_manager start_check set_state allowed save_cache
    run_check run_answer accept_release verify_manifest find_key text_eq hex_decode hex_encode
    sign_manifest trim_space is_space select_artifact scan consider fits_current parse_version
    component split atoi compare_version compare_pre drop_staged download_begin too_soon
    download_fetched create_file download_verified file_hash hash_matches install_begin
file_still = refl

artifact_now : verified.mgr.artifact ≡ some delta
unfolding init reconcile_files announce fresh_manager start_check set_state allowed save_cache
    run_check run_answer accept_release verify_manifest find_key text_eq hex_decode hex_encode
    sign_manifest trim_space is_space select_artifact scan consider fits_current parse_version
    component split atoi compare_version compare_pre drop_staged download_begin too_soon
    download_fetched create_file download_verified file_hash hash_matches
artifact_now = refl

installs-Vouched_example : Vouched config sha
installs-Vouched_example =
    installs-Vouched config cache no_files installing install_task [] sha
      (next verified_reached (install_starts verified)) tree_task file_still

stages-Vouched_example : Vouched config sha
stages-Vouched_example =
    stages-Vouched config cache no_files verified 0 sha verified_reached staged_now file_now

offers-IsTrusted_example : IsTrusted config delta
offers-IsTrusted_example =
    offers-IsTrusted config cache no_files verified delta verified_reached artifact_now

abbrev backed_out : System
backed_out = record { mgr = cancel config downloading.mgr; tasks = downloading.tasks }

abbrev given_up : System
given_up = record {
  mgr = (download_fetched config transfer (fetched sha) backed_out.mgr).0;
  tasks = add_hash (download_fetched config transfer (fetched sha) backed_out.mgr).1 [];
}
