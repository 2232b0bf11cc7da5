-- ===== src/Update/Extract.antt =====
-- Unpacking artifacts (backend/internal/update/delta.go, and the zip functions of install.go), on
-- Unix. Paths in a tree are relative to the directory that is unpacked into.
pub mod Clean
pub mod Bounds
pub mod Contained
pub mod Top
pub mod Listing
mod Tests
use connective.Prelude.{
  ℕ, zero, suc, ◌+◌, ◌-◌, ◌*◌, ◌^◌, ◌==◌, ◌||◌, ◌&&◌, ltb, leb, not, Bool, true, false,
  if◌then◌else◌, List, [], ◌∷◌, ◌++◌, Option, none, some, Text, codes, is_empty, text_eq,
  trim_space, has_prefix, trim_prefix, cut_first, split, length, drop, keep, map, Result, ok, err,
  ◌>>=◌, ◌>>◌, guard,
}
use connective.Servers.{is_among}
use Clean.{dot, is_rooted, clean, leads_up}

abbrev pub max_unzip_total_bytes : ℕ
max_unzip_total_bytes = 1073741824

abbrev pub max_unzip_files : ℕ
max_unzip_files = 10000

abbrev pub max_listing_bytes : ℕ
max_listing_bytes = 8388608

-- `DeltaListingName`
abbrev pub listing_name : Text
listing_name = codes ".connective-delta-files"

-- A member of a zip as archive/zip gives it. Copying it gives its bytes and then breaks, or ends.
pub record Member : Type 0 where
  pub name : Text
  pub is_dir : Bool
  pub declared_size : ℕ
  pub opens : Bool
  pub bytes : Text
  pub breaks : Bool

-- The files of a directory with their bytes.
abbrev pub Tree : Type 0
Tree = List (Text × Text)

unfoldable pub remove : Text → Tree → Tree
remove path tree = keep (λ f. not (text_eq f.0 path)) tree

abbrev pub put : Text → Text → Tree → Tree
put path bytes tree = (path, bytes) ∷ remove path tree

-- `unzipBudget`, and the tree.
pub record Unpacking : Type 0 where
  pub remaining : ℕ
  pub files : ℕ
  pub tree : Tree

-- `newUnzipBudget`
abbrev pub start_unpacking : Tree → Unpacking
start_unpacking tree = record { remaining = max_unzip_total_bytes; files = 0; tree = tree }

pub data UnzipError : Type 0 where
  unsafe_path outside_top too_many_files too_large cannot_write cannot_open cannot_read bad_zip
        listing_too_large unsafe_listing no_base cancelled :
      UnzipError

-- What the disk allows: making the directories of a path, and creating the file.
pub record Disk : Type 0 where
  pub makes : Text → Bool
  pub creates : Text → Bool

abbrev pub take_bytes : ℕ → Text → Text
take_bytes zero s = []
take_bytes (suc n) [] = []
take_bytes (suc n) (c ∷ s) = c ∷ take_bytes n s

-- The copy of a member's bytes to its file, of which at most a byte over the budget is read. A write or a
-- Close that fails is left out; after such a failure the code leaves what was written in place, which may
-- be the byte over the budget.
unfoldable pub copy_member : Member → Text → Unpacking → Unpacking × Result UnzipError (Unit {0})
unfolding remove
copy_member m rel u =
    if leb (length m.bytes) u.remaining
    then (if m.breaks then (record u { tree = put rel m.bytes u.tree }, err cannot_read) else (
      record u { tree = put rel m.bytes u.tree; remaining = u.remaining - length m.bytes },
      ok tt,
    ))
    else (record u { tree = remove rel u.tree }, err too_large)

-- The part of `unzipOneBudgeted` for a file.
unfoldable pub unzip_file :
    Disk → Member → Text → Unpacking → Unpacking × Result UnzipError (Unit {0})
unfolding copy_member
unzip_file disk m rel u =
    let copied = copy_member m rel u in
    if ltb u.remaining m.declared_size
    then (u, err too_large)
    else if not (disk.makes rel)
    then (u, err cannot_write)
    else if not m.opens
    then (u, err cannot_open)
    else if disk.creates rel
    then copied
    else (u, err cannot_write)

-- `unzipOneBudgeted`
unfoldable pub unzip_one : Disk → Member → Unpacking → Unpacking × Result UnzipError (Unit {0})
unfolding unzip_file
unzip_one disk m u =
    let rel = clean m.name in
    let counted = record u { files = suc u.files } in
    let written = unzip_file disk m rel counted in
    if is_rooted m.name
    then (u, err unsafe_path)
    else if text_eq rel dot || leads_up rel
    then (u, err unsafe_path)
    else if ltb max_unzip_files counted.files
    then (counted, err too_many_files)
    else if m.is_dir
    then (if disk.makes rel then (counted, ok tt) else (counted, err cannot_write))
    else written

-- strings.TrimSuffix with "/".
unfoldable pub trim_slash : Text → Text
trim_slash [] = []
trim_slash (c ∷ []) = if c == b'/' then [] else c ∷ []
trim_slash (c ∷ d ∷ s) = c ∷ trim_slash (d ∷ s)

-- A first segment is met, where `top` was met so far, and `next` goes on with it.
abbrev pub with_segment : (Text → Text) → Text → Text → Text
with_segment next top seg =
    let first = next seg in
    let same = next top in if is_empty top then first else if text_eq top seg then same else []

abbrev pub top_step : (Text → Text) → Text → Bool → Option (Text × Text) → Text → Text
top_step next top is_dir (some (seg, _)) name = with_segment next top seg
top_step next top is_dir none name = if is_dir then with_segment next top name else []

-- The loop of `zipTopPrefix`, with the top folder met so far.
unfoldable pub top_of : Text → List Member → Text
unfolding trim_slash cut_first
top_of top [] = top
top_of top (m ∷ members) =
    let name = trim_slash m.name in
    let next : Text → Text = λ t. top_of t members in
    if is_empty name then next top else top_step next top m.is_dir (cut_first b'/' name) name

-- `zipTopPrefix`
unfoldable pub zip_top_prefix : List Member → Text
zip_top_prefix members = top_of [] members

abbrev pub in_top : Text → Text → Bool
in_top strip name = text_eq name strip || has_prefix name (strip ++ codes "/")

-- `unzipOneStripBudgeted`
unfoldable pub unzip_stripped :
    Disk → Text → Member → Unpacking → Unpacking × Result UnzipError (Unit {0})
unfolding unzip_one
unzip_stripped disk strip m u =
    let plain = unzip_one disk m u in
    let name = trim_prefix (strip ++ codes "/") m.name in
    let inner = unzip_one disk (record m { name = name }) u in
    if is_empty strip
    then plain
    else if not (in_top strip m.name)
    then (u, err outside_top)
    else if is_empty name || text_eq name (codes "/")
    then (u, ok tt)
    else inner

abbrev pub unzip_then :
    (Unpacking → Unpacking × Result UnzipError (Unit {0}))
    → Unpacking × Result UnzipError (Unit {0})
    → Unpacking × Result UnzipError (Unit {0})
unzip_then next (v, err e) = (v, err e)
unzip_then next (v, ok _) = next v

-- The loop over the members; `stop` says whether the context is cancelled before the n-th of them.
unfoldable pub unzip_members :
    (Member → Unpacking → Unpacking × Result UnzipError (Unit {0}))
    → (ℕ → Bool)
    → ℕ
    → List Member
    → Unpacking
    → Unpacking × Result UnzipError (Unit {0})
unzip_members unzip stop n [] u = (u, ok tt)
unzip_members unzip stop n (m ∷ members) u =
    if stop n
    then (u, err cancelled)
    else unzip_then (unzip_members unzip stop (suc n) members) (unzip m u)

-- `unzipAll`, from the members of the zip, or none when it does not open.
unfoldable pub unzip_all :
    Disk → (ℕ → Bool) → Option (List Member) → Unpacking × Result UnzipError (Unit {0})
unzip_all disk stop none = (start_unpacking [], err bad_zip)
unzip_all disk stop (some members) =
    unzip_members (unzip_stripped disk (zip_top_prefix members)) stop 0 members (start_unpacking [])

-- The loop of `readDeltaListing` over the lines; `n` paths were listed so far.
unfoldable pub listed : ℕ → List Text → Result UnzipError (List Text)
unfolding clean
listed n [] = ok []
listed n (l ∷ lines) =
    let line = trim_space l in
    let path = clean line in
    if is_empty line
    then listed n lines
    else if is_rooted path || leads_up path
    then err unsafe_listing
    else if ltb max_unzip_files (suc n)
    then err too_many_files
    else listed (suc n) lines >>= λ rest. ok (path ∷ rest)

-- `readDeltaListing`
unfoldable pub read_delta_listing : Member → Result UnzipError (List Text)
read_delta_listing m = do
  guard (not (ltb max_listing_bytes m.declared_size)) listing_too_large
  guard m.opens cannot_open
  guard (not (m.breaks && leb (length m.bytes) max_listing_bytes)) cannot_read
  guard (not (ltb max_listing_bytes (length m.bytes))) listing_too_large
  listed 0 (split 10 m.bytes)

-- `dropMissing`, for the files.
unfoldable pub drop_missing : List Text → Tree → Tree
drop_missing listing tree = keep (λ f. is_among f.0 (map clean listing)) tree

abbrev pub is_listing : Member → Bool
is_listing m = text_eq m.name listing_name

unfoldable pub find_listing : List Member → Option Member
find_listing [] = none
find_listing (m ∷ members) =
    let rest = find_listing members in if is_listing m then some m else rest

-- The listing, or none when no member carries it. An empty listing counts as none.
abbrev pub listing_of : Option Member → Result UnzipError (Option (List Text))
listing_of none = ok none
listing_of (some m) = elim (read_delta_listing m) [
  | err e ↦ err e
  | ok [] ↦ ok none
  | ok (p ∷ paths) ↦ ok (some (p ∷ paths))
]

abbrev pub pruned : Option (List Text) → Unpacking → Unpacking
pruned none u = u
pruned (some listing) u = record u { tree = drop_missing listing u.tree }

-- `unzipOneBudgeted`, or nothing for the listing.
abbrev pub overlay_one : Disk → Member → Unpacking → Unpacking × Result UnzipError (Unit {0})
overlay_one disk m u = if is_listing m then (u, ok tt) else unzip_one disk m u

abbrev pub overlaid :
    Option (List Text)
    → Unpacking × Result UnzipError (Unit {0})
    → Unpacking × Result UnzipError (Unit {0})
overlaid listing (u, err e) = (u, err e)
overlaid listing (u, ok _) = (pruned listing u, ok tt)

abbrev pub overlay :
    Disk
    → (ℕ → Bool)
    → Tree
    → List Member
    → Result UnzipError (Option (List Text))
    → Unpacking × Result UnzipError (Unit {0})
overlay disk stop tree members (err e) = (start_unpacking tree, err e)
overlay disk stop tree members (ok listing) =
    overlaid listing (unzip_members (overlay_one disk) stop 0 members (start_unpacking tree))

-- `ZipOverlayApplier.Apply` on a copy of the base tree; `stop_first` is the first check of the context.
unfoldable pub apply_delta :
    Disk
    → Bool
    → (ℕ → Bool)
    → Option Tree
    → Option (List Member)
    → Unpacking × Result UnzipError (Unit {0})
apply_delta disk stop_first stop base zip =
    if stop_first then (start_unpacking [], err cancelled) else elim base [
      | none ↦ (start_unpacking [], err no_base)
      | some tree ↦ elim zip [
        | none ↦ (start_unpacking tree, err bad_zip)
        | some members ↦ overlay disk stop tree members (listing_of (find_listing members))
      ]
    ]
