-- ===== src/Lib.antt =====
-- Connective: a desktop VPN client whose daemon (backend/cmd/connectived) drives a proxy core, and which
-- updates itself. This library models the two state machines of the backend, the update pipeline, the
-- settings document with its application ids, the servers with their share links and subscriptions, the
-- route table, the logger and the watcher of the network.
--
-- Connection (backend/internal/connection/machine.go): `Machine` is the struct, `transition`, `reset`,
-- `subscribe` and `set_server` are its methods; `Op` and `run` are sequences of calls, in the order in
-- which the mutex admits them. Deliveries to listeners are kept as a log.
--
-- Update (backend/internal/update): Update/Version is version.go, Update/Lifecycle the table of
-- state.go, Update/Manifest is manifest.go, verify.go and artifacts.go, Update/Manager is manager.go and
-- the boot part of handoff.go. A handler of the manager that releases the mutex is cut there:
-- `start_check` and `run_check`; `download_begin`, `download_fetched` and `download_verified`;
-- `install_begin`, `fallback_artifact`, `install_refetched`, `install_finish` and `install_activated`;
-- `on_updater_exit`, `cancel`, `dismiss` and `init`. Manager/System puts the parts together: a step is
-- any one of them, with any outcome of the network, of the disk or of the updater, so that every
-- interleaving of the goroutines is a sequence of steps, and Manager/System/Cancelled follows those that
-- come after a `cancel`. The manager uses the manifest's trust and choice of an artifact, and the
-- manifest uses versions.
--
-- Update/Extract is the unpacking of zips: delta.go, and unzipAll and zipTopPrefix of install.go; its
-- `Unpacking` is the budget together with the files written. Update/Installer is the rest of install.go:
-- `Root` holds the directory of trees and the two links, `InstallCall` and `run_calls` are sequences of
-- calls, and what the operating system refuses comes with each call. Extract/Clean is filepath.Clean.
--
-- Update/Provider is the match of provider.go between a manifest and a query, and Update/Github the
-- choice of a release in github.go, which uses it. Update/Downloader is download.go:
-- an `Answer` and its `Source` are what one attempt meets. Update/Quote is spawn_quote.go.
--
-- Apps is backend/internal/apps/apps.go (`app_id` is NormalizeAppID), Settings is
-- backend/internal/settings/settings.go, whose `validate_settings` uses `normalize_list`, Logging is
-- backend/internal/logging/logging.go, and Monitor the loop of the network watcher in
-- backend/internal/monitor/monitor.go.
--
-- Servers (backend/internal/servers): servers.go is Servers, parse.go is Servers/Links with its helpers
-- in Servers/Hosts and Servers/Base64. Subscriptions is backend/internal/subscriptions/subscriptions.go,
-- with the download and the refresh in Subscriptions/Update; it parses each line of a body as a share
-- link. Routing is the longest-prefix match of backend/internal/routing/routetable.go, and Firewall the
-- rules of backend/internal/firewall/rules.go.
--
-- Texts are lists of code points (Prelude/Texts), machine integers are native numbers with their bounds
-- written out, moments are nanoseconds. In Servers and Subscriptions a text is the list of its bytes;
-- cutting white space is exact there unless a byte above 127 stands at an end. Every loop of the
-- modelled code is over a list, with two exceptions: a download is tried `max_retries` times, and
-- `parseShadowsocks` calls itself, where `calls` bounds how often; more calls than the body of the link
-- has bytes are as good as any number. The back-off is computed with the wrap-around of an int64.
--
-- Not modelled: the JSON codec and Ed25519, which are the parameter `Crypto`; the transfer over HTTP,
-- the file system beyond which staged file has which hash (for the manager) and which files stand in a
-- tree (for the installer), and the updater process, which are outcomes of steps; what is written to the
-- log; Unicode's lower case and `Redact`, which are parameters. So are the parsers of URLs and of JSON
-- for share links, the fetcher of subscriptions and net.ParseIP. `Percent` is an exact fraction.
-- Directories, file modes and the Windows side of the installer, the requests and the paging of the
-- GitHub provider, the exports of share links and the reading of the route table's text are left out. So
-- are a write or a Close that fails while a member of a zip is copied (`copy_member`), after which the
-- code leaves what was written, perhaps one byte over the budget; a size of the staged file that cannot
-- be read, for which the downloader starts anew (`fetch_from`); a store or a cache that `Init` cannot
-- read, after which the manager has no state; and a change of the channel in the settings while the
-- daemon runs, where `Config` has a fixed one. The other packages of the backend, the frontend and the
-- packaging are left out.
pub mod Prelude
pub mod Connection
pub mod Apps
pub mod Settings
pub mod Servers
pub mod Routing
pub mod Firewall
pub mod Subscriptions
pub mod Logging
pub mod Monitor
pub mod Update
