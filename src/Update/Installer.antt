-- ===== src/Update/Installer.antt =====
-- The versioned install tree (backend/internal/update/install.go): assembling, promoting, activating
-- and rolling back, on Unix. What the operating system refuses is given with each call.
pub mod Links
pub mod Anchor
pub mod Active
mod Tests
use connective.Prelude.{
  ℕ, zero, suc, ◌&&◌, ◌||◌, not, Bool, true, false, if◌then◌else◌, List, [], ◌∷◌, ◌++◌, Option,
  none, some, Text, codes, is_empty, text_eq, has_char, Result, ok, err, ◌>>=◌, ◌>>◌, guard,
}
use connective.Apps.{base}
use connective.Update.Version.{Version, VersionError, parse_version, wrap}
use connective.Update.Extract.{
  Member, Tree, Unpacking, UnzipError, Disk, unzip_all, apply_delta, start_unpacking,
}
use connective.Update.Extract.Clean.{clean}

-- The directory `versions` by name, and the texts of the two links.
pub record Root : Type 0 where
  pub versions : List (Text × Tree)
  pub current : Option Text
  pub previous : Option Text

pub data InstallError : Type 0 where
  bad_target : VersionError → InstallError
  unsafe_version not_assembled cannot_anchor cannot_link cannot_replace nothing_to_roll_back
        no_staging no_current unknown_kind canceled cannot_make cannot_rename staged_missing
        cannot_copy :
      InstallError
  wrong_base : Text → Text → InstallError
  cannot_unzip : UnzipError → InstallError

-- `VersionDir`; the directory is known by its name.
unfoldable pub version_dir : Text → Result InstallError Text
version_dir v = do
  p ← wrap bad_target (parse_version v)
  guard (not (has_char b'/' v || has_char b'\\' v)) unsafe_version
  ok v

unfoldable pub find_tree : Text → List (Text × Tree) → Option Tree
find_tree v [] = none
find_tree v (d ∷ dirs) = let rest = find_tree v dirs in if text_eq d.0 v then some d.1 else rest

abbrev pub is_some {ℓ} : {A : Type ℓ} → Option A → Bool
is_some none = false
is_some (some _) = true

-- The text of a link to the tree of a version.
abbrev pub link_to : Text → Text
link_to v = codes "versions/" ++ v

-- What the operating system refuses during `Activate` and `Rollback`.
pub record LinkFaults : Type 0 where
  pub remove_fails : Bool
  pub anchor_fails : Bool
  pub symlink_fails : Bool
  pub replace_fails : Bool

-- The new link is made aside and renamed over `current`.
abbrev pub switch_current : LinkFaults → Text → Text → Root → Root × Result InstallError Text
switch_current f next answer r =
    if f.symlink_fails
    then (r, err cannot_link)
    else if f.replace_fails
    then (r, err cannot_replace)
    else (record r { current = some next }, ok answer)

-- The tree that is current becomes the one to roll back to: the old link is removed, and a new one made,
-- which fails where the old one could not be removed.
abbrev pub anchor : LinkFaults → Text → Option Text → Root → Root × Result InstallError Text
anchor f target none r = switch_current f (link_to target) [] r
anchor f target (some cur) r =
    if f.remove_fails && is_some r.previous
    then (r, err cannot_anchor)
    else if f.anchor_fails
    then (record r { previous = none }, err cannot_anchor)
    else switch_current f (link_to target) (base cur) (record r { previous = some cur })

abbrev pub activate_found : LinkFaults → Text → Root → Option Tree → Root × Result InstallError Text
activate_found f target r none = (r, err not_assembled)
activate_found f target r (some tree) = anchor f target r.current r

abbrev pub activate_in :
    LinkFaults → Text → Root → Result InstallError Text → Root × Result InstallError Text
activate_in f target r (err e) = (r, err e)
activate_in f target r (ok dir) = activate_found f target r (find_tree dir r.versions)

-- `Installer.Activate`
unfoldable pub activate : LinkFaults → Text → Root → Root × Result InstallError Text
unfolding version_dir find_tree
activate f target r = activate_in f target r (version_dir target)

abbrev pub rollback_to : LinkFaults → Root → Option Text → Root × Result InstallError Text
rollback_to f r none = (r, err nothing_to_roll_back)
rollback_to f r (some prev) = switch_current f prev (base prev) r

-- `Installer.Rollback`
unfoldable pub rollback : LinkFaults → Root → Root × Result InstallError Text
rollback f r = rollback_to f r r.previous

-- `Installer.Current`
unfoldable pub current_version : Root → Text
current_version r = elim r.current [ none ↦ [] | some cur ↦ base cur ]

abbrev pub kind_full : Text
kind_full = codes "full"

abbrev pub kind_delta : Text
kind_delta = codes "delta"

-- What `Assemble` is given: the zip, the disk, the context, and the link of the base tree, which is that
-- of `DeltaBase` when one is set.
pub record Assembly : Type 0 where
  pub kind : Text
  pub zip : Option (List Member)
  pub disk : Disk
  pub stop_first : Bool
  pub stop : ℕ → Bool
  pub stop_last : Bool
  pub delta_base : Option (Option Text)
  pub delta_from : Text
  -- The tree behind a link, when it can be copied.
  pub read_tree : Text → Option Tree
  pub staging_fails : Bool
  pub make_fails : Bool
  pub rename_fails : Bool

abbrev pub unpacked : Unpacking × Result UnzipError (Unit {0}) → Result InstallError Tree
unpacked (u, ok _) = ok u.tree
unpacked (u, err e) = err (cannot_unzip e)

abbrev pub base_link : Assembly → Root → Option Text
base_link a r = elim a.delta_base [ none ↦ r.current | some link ↦ link ]

-- The delta branch of `Assemble`.
abbrev pub build_delta : Assembly → Option Text → Result InstallError Tree
build_delta a none = err no_current
build_delta a (some cur) =
    if not (is_empty a.delta_from) && not (text_eq (base (clean cur)) a.delta_from)
    then err (wrong_base a.delta_from (base (clean cur)))
    else unpacked (apply_delta a.disk a.stop_first a.stop (a.read_tree cur) a.zip)

unfoldable pub build_tree : Assembly → Root → Result InstallError Tree
build_tree a r =
    if text_eq a.kind kind_full
    then unpacked (unzip_all a.disk a.stop a.zip)
    else if text_eq a.kind kind_delta
    then build_delta a (base_link a r)
    else err unknown_kind

-- The built tree is renamed into place when nothing failed.
abbrev pub place_tree :
    Assembly → Text → Root → Result InstallError Tree → Root × Result InstallError Text
place_tree a dir r (err e) = (r, err e)
place_tree a dir r (ok tree) =
    if a.stop_last
    then (r, err canceled)
    else if a.make_fails
    then (r, err cannot_make)
    else if a.rename_fails
    then (r, err cannot_rename)
    else (record r { versions = (dir, tree) ∷ r.versions }, ok dir)

-- A directory that is there is a finished assembly.
abbrev pub assemble_new : Assembly → Text → Root → Option Tree → Root × Result InstallError Text
assemble_new a dir r (some tree) = (r, ok dir)
assemble_new a dir r none =
    if a.staging_fails then (r, err no_staging) else place_tree a dir r (build_tree a r)

abbrev pub assemble_in :
    Assembly → Root → Result InstallError Text → Root × Result InstallError Text
assemble_in a r (err e) = (r, err e)
assemble_in a r (ok dir) = assemble_new a dir r (find_tree dir r.versions)

-- `Installer.Assemble`
unfoldable pub assemble : Assembly → Text → Root → Root × Result InstallError Text
unfolding version_dir find_tree build_tree
assemble a target r = assemble_in a r (version_dir target)

-- What the operating system refuses during `PromoteStaged`.
pub record CopyFaults : Type 0 where
  pub makes_none : Bool
  pub copy_fails : Bool
  pub move_fails : Bool

abbrev pub promote_new :
    CopyFaults → Bool → Text → Root → Option Tree → Option Tree → Root × Result InstallError Text
promote_new f same_place dir r none found = (r, err staged_missing)
promote_new f same_place dir r (some tree) (some found) = (r, ok dir)
promote_new f same_place dir r (some tree) none =
    if same_place
    then (r, ok dir)
    else if f.makes_none
    then (r, err cannot_make)
    else if f.copy_fails
    then (r, err cannot_copy)
    else if f.move_fails
    then (r, err cannot_rename)
    else (record r { versions = (dir, tree) ∷ r.versions }, ok dir)

abbrev pub promote_in :
    CopyFaults
    → Option Tree
    → Bool
    → Root
    → Result InstallError Text
    → Root × Result InstallError Text
promote_in f staged same_place r (err e) = (r, err e)
promote_in f staged same_place r (ok dir) =
    promote_new f same_place dir r staged (find_tree dir r.versions)

-- `PromoteStaged`, from the staged tree, or none when it is missing; `same_place` says that it is the
-- destination itself. Where the code returns no error, this answers the name of the version.
unfoldable pub promote_staged :
    CopyFaults → Option Tree → Bool → Text → Root → Root × Result InstallError Text
unfolding version_dir find_tree
promote_staged f staged same_place ver r = promote_in f staged same_place r (version_dir ver)

-- What the daemon and the updater call, with what is refused to each call.
pub data InstallCall : Type 0 where
  assembling : Assembly → Text → InstallCall
  promoting : CopyFaults → Option Tree → Bool → Text → InstallCall
  activating : LinkFaults → Text → InstallCall
  rolling_back : LinkFaults → InstallCall

abbrev pub install_step : InstallCall → Root → Root
install_step (assembling a v) r = (assemble a v r).0
install_step (promoting f staged same_place v) r = (promote_staged f staged same_place v r).0
install_step (activating f v) r = (activate f v r).0
install_step (rolling_back f) r = (rollback f r).0

unfoldable pub run_calls : List InstallCall → Root → Root
run_calls [] r = r
run_calls (c ∷ calls) r = run_calls calls (install_step c r)
