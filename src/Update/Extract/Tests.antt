-- ===== src/Update/Extract/Tests.antt =====
-- Artifacts unpacked.
use connective.Prelude.{
  ℕ, Bool, true, false, List, [], ◌∷◌, some, Text, codes, is_empty, map, All, split, text_eq,
  cut_first, trim_space, has_prefix, ◌+◌, ap, ok, ◌≡◌, refl,
}
use connective.Servers.{is_among}
use connective.Update.Extract.{
  Member, Tree, Disk, listed, top_of, trim_slash, find_listing, unzip_members, unzip_one,
  unzip_file, copy_member, remove, zip_top_prefix, unzip_all, read_delta_listing, apply_delta,
  listing_name, max_unzip_total_bytes, max_unzip_files,
}
use connective.Update.Extract.Clean.{clean, clean_parts, back_onto, join_path, IsInside}
use connective.Update.Extract.Bounds.{IsContained, total}
use connective.Update.Extract.Contained.{unzip_all-IsContained, apply_delta-IsContained}
use connective.Update.Extract.Top.{Covers, zip_top_prefix-Covers}
use connective.Update.Extract.Listing.{apply_delta-IsListed}

abbrev disk : Disk
disk = record { makes = λ p. true; creates = λ p. true }

abbrev never : ℕ → Bool
never n = false

abbrev file : Text → Text → Member
file name bytes = record {
  name = name;
  is_dir = false;
  declared_size = 2;
  opens = true;
  bytes = bytes;
  breaks = false;
}

abbrev folder : Text → Member
folder name = record (file name []) { is_dir = true; declared_size = 0 }

abbrev release : List Member
release = folder (codes "0.5.0/") ∷ file (codes "0.5.0/bin/app") (codes "ab") ∷ []

abbrev slip : List Member
slip = file (codes "a") (codes "ab") ∷ file (codes "x/../../y") (codes "cd") ∷ []

cleaned : clean (codes "a/./b//../c/") ≡ codes "a/c"
unfolding clean split text_eq join_path back_onto clean_parts
cleaned = refl

above : clean (codes "x/../../y") ≡ codes "../y"
unfolding clean split text_eq join_path back_onto clean_parts
above = refl

one_top : zip_top_prefix release ≡ codes "0.5.0"
unfolding zip_top_prefix top_of trim_slash cut_first text_eq
one_top = refl

unzip_all-IsContained_example :
    IsContained max_unzip_total_bytes max_unzip_files (unzip_all disk never (some slip)).0.tree
unzip_all-IsContained_example = unzip_all-IsContained disk never (some slip)

zip_top_prefix-Covers_example : All (Covers (zip_top_prefix release)) release
zip_top_prefix-Covers_example = zip_top_prefix-Covers release (ap is_empty one_top)

abbrev listing : Member
listing = file listing_name (codes "a\nb/./c\n")

paths_read : read_delta_listing listing ≡ ok (codes "a" ∷ codes "b/c" ∷ [])
unfolding read_delta_listing listed clean split text_eq join_path back_onto clean_parts trim_space
    has_prefix
paths_read = refl

abbrev delta : List Member
delta = listing ∷ file (codes "a") (codes "ab") ∷ []

abbrev installed : Tree
installed = (codes "old", codes "xy") ∷ []

old-IsInside : IsInside (codes "old")
unfolding join_path text_eq
old-IsInside = record {
  names = codes "old" ∷ [];
  is_path = refl;
  all_names = (
    record {
      not_empty = refl;
      not_dot = refl;
      not_up = refl;
      no_slash = (refl, (refl, (refl, tt)));
    },
    tt,
  );
  first = codes "old";
  others = [];
  has_name = refl;
}

apply_delta-IsContained_example :
    IsContained
      (total installed + max_unzip_total_bytes)
      (1 + max_unzip_files)
      (apply_delta disk false never (some installed) (some slip)).0.tree
apply_delta-IsContained_example =
    apply_delta-IsContained disk false never installed (some slip) (old-IsInside, tt)

found_listing : find_listing delta ≡ some listing
unfolding find_listing text_eq
found_listing = refl

applied : (apply_delta disk false never (some installed) (some delta)).1 ≡ ok tt
unfolding apply_delta unzip_members unzip_one unzip_file copy_member remove find_listing text_eq
    read_delta_listing listed clean split join_path back_onto clean_parts trim_space has_prefix
applied = refl

apply_delta-IsListed_example :
    All
      (λ f. is_among f.0 (map clean (codes "a" ∷ codes "b/c" ∷ [])) ≡ true)
      (apply_delta disk false never (some installed) (some delta)).0.tree
apply_delta-IsListed_example =
    apply_delta-IsListed disk never installed delta listing (codes "a") (codes "b/c" ∷ [])
      found_listing paths_read applied
