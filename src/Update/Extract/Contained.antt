-- ===== src/Update/Extract/Contained.antt =====
-- Whole artifacts: `unzipAll` and `ZipOverlayApplier.Apply` keep to their directory and budget.
use connective.Prelude.{
  ℕ, suc, ◌+◌, ◌≤◌, ◌||◌, not, Bool, true, false, List, [], ◌∷◌, Option, none, some, Text, codes,
  is_empty, text_eq, trim_prefix, length, keep, length-keep, All, All-keep, Result, ok, err, arith,
  ◌++◌,
}
use connective.Update.Extract.{
  Member, Tree, drop_missing, Unpacking, start_unpacking, UnzipError, Disk, in_top, unzip_stripped,
  unzip_then, unzip_members, unzip_all, zip_top_prefix, overlay_one, overlay, is_listing, overlaid,
  pruned, listing_of, find_listing, apply_delta, max_unzip_files, max_unzip_total_bytes,
}
use connective.Update.Extract.Clean.{IsInside}
use connective.Update.Extract.Bounds.{
  Outcome, total, IsContained, IsOpen, Contained, Ends, IsOpen-Contained, Ends-if, unzip_one-Ends,
}

-- What one member may do to the state.
abbrev pub Steps : ℕ → ℕ → (Member → Unpacking → Outcome) → Type 0
Steps bytes count unzip =
    (m : Member) (u : Unpacking) → IsOpen bytes count u → Ends bytes count (unzip m u)

module _ (bytes count : ℕ) where
  unzip_then-Ends :
      (next : Unpacking → Outcome) (o : Outcome)
      → ((u : Unpacking) → IsOpen bytes count u → Ends bytes count (next u))
      → Ends bytes count o
      → Ends bytes count (unzip_then next o)
  unzip_then-Ends next (u, ok _) h e = h u e
  unzip_then-Ends next (u, err x) h e = e

  unzip_members-Ends :
      (unzip : Member → Unpacking → Outcome) (stop : ℕ → Bool)
      → Steps bytes count unzip
      → (members : List Member) (n : ℕ) (u : Unpacking) → IsOpen bytes count u
      → Ends bytes count (unzip_members unzip stop n members u)
  unfolding unzip_members
  unzip_members-Ends unzip stop s [] n u h = h
  unzip_members-Ends unzip stop s (m ∷ members) n u h =
      Ends-if bytes count (stop n) _ _ (λ _. IsOpen-Contained bytes count u h)
        (λ _.
          unzip_then-Ends (unzip_members unzip stop (suc n) members) (unzip m u)
            (unzip_members-Ends unzip stop s members (suc n)) (s m u h))

  unzip_stripped-Steps :
      (disk : Disk) (strip : Text) → Steps bytes count (unzip_stripped disk strip)
  unfolding unzip_stripped
  unzip_stripped-Steps disk strip m u h =
      Ends-if bytes count (is_empty strip) _ _ (λ _. unzip_one-Ends bytes count disk m u h)
        (λ _.
          Ends-if bytes count (not (in_top strip m.name)) _ _
            (λ _. IsOpen-Contained bytes count u h)
            (λ _.
              Ends-if bytes count
                (is_empty (trim_prefix (strip ++ codes "/") m.name)
                  || text_eq (trim_prefix (strip ++ codes "/") m.name) (codes "/"))
                (u, ok tt) _ (λ _. h)
                (λ _.
                  unzip_one-Ends bytes count disk
                    (record m { name = trim_prefix (strip ++ codes "/") m.name }) u h)))

  overlay_one-Steps : (disk : Disk) → Steps bytes count (overlay_one disk)
  overlay_one-Steps disk m u h =
      Ends-if bytes count (is_listing m) _ _ (λ _. h) (λ _. unzip_one-Ends bytes count disk m u h)

  Ends-Contained : (o : Outcome) → Ends bytes count o → Contained bytes count o.0
  Ends-Contained (u, ok _) h = IsOpen-Contained bytes count u h
  Ends-Contained (u, err e) h = h

start-IsOpen :
    (tree : Tree)
    → All (λ f. IsInside f.0) tree
    → IsOpen (total tree) (length tree) (start_unpacking tree)
start-IsOpen tree h = record {
  all_inside = h;
  budget = omega arith;
  counted = omega arith;
  files_bound = omega arith;
}

-- Whatever a full artifact holds, whatever directory or file cannot be made and whenever the work is cancelled:
-- afterwards every file that `unzipAll` wrote has a path of names below the directory, without a step
-- up, the files hold at most 1 GiB together, and there are at most 10000 of them.
pub unzip_all-IsContained :
    (disk : Disk) (stop : ℕ → Bool) (zip : Option (List Member))
    → IsContained max_unzip_total_bytes max_unzip_files (unzip_all disk stop zip).0.tree
unfolding unzip_all total
unzip_all-IsContained disk stop none =
    IsOpen-Contained 0 0 (start_unpacking []) (start-IsOpen [] tt)
unzip_all-IsContained disk stop (some members) =
    Ends-Contained 0 0
      (unzip_members (unzip_stripped disk (zip_top_prefix members)) stop 0 members
        (start_unpacking []))
      (unzip_members-Ends 0 0 (unzip_stripped disk (zip_top_prefix members)) stop
        (unzip_stripped-Steps 0 0 disk (zip_top_prefix members)) members 0 (start_unpacking [])
        (start-IsOpen [] tt))

total-keep : (p : Text × Text → Bool) (tree : Tree) → total (keep p tree) ≤ total tree
unfolding total
total-keep p [] = omega arith
total-keep p (f ∷ tree) = ground (arith, total-keep p tree)

pruned-Contained :
    (bytes count : ℕ) (listing : Option (List Text)) (u : Unpacking)
    → Contained bytes count u
    → Contained bytes count (pruned listing u)
unfolding drop_missing
pruned-Contained bytes count none u h = h
pruned-Contained bytes count (some listing) u h = record {
  inside = All-keep (λ f. IsInside f.0) _ u.tree h.inside;
  bytes_bound = omega (arith, h.bytes_bound, total-keep _ u.tree);
  count_bound = omega (arith, h.count_bound, length-keep _ u.tree);
}

overlaid-Contained :
    (bytes count : ℕ) (listing : Option (List Text)) (o : Outcome)
    → Ends bytes count o
    → Contained bytes count (overlaid listing o).0
overlaid-Contained bytes count listing (u, err e) h = h
overlaid-Contained bytes count listing (u, ok _) h =
    pruned-Contained bytes count listing u (IsOpen-Contained bytes count u h)

-- The same for a delta over a copy of the installed tree, if the files of that tree stand inside: the
-- files hold at most 1 GiB more than it, and at most 10000 files are added.
pub apply_delta-IsContained :
    (disk : Disk) (stop_first : Bool) (stop : ℕ → Bool) (base : Tree) (zip : Option (List Member))
    → All (λ f. IsInside f.0) base
    → IsContained
        (total base + max_unzip_total_bytes)
        (length base + max_unzip_files)
        (apply_delta disk stop_first stop (some base) zip).0.tree
unfolding apply_delta
apply_delta-IsContained disk true stop base zip h = record {
  inside = tt;
  bytes_bound = unfold total in omega arith;
  count_bound = omega arith;
}
apply_delta-IsContained disk false stop base none h =
    IsOpen-Contained (total base) (length base) (start_unpacking base) (start-IsOpen base h)
apply_delta-IsContained disk false stop base (some members) h =
    go (listing_of (find_listing members))
  where
    go :
        (r : Result UnzipError (Option (List Text)))
        → Contained (total base) (length base) (overlay disk stop base members r).0
    go (err e) =
        IsOpen-Contained (total base) (length base) (start_unpacking base) (start-IsOpen base h)
    go (ok listing) = overlaid-Contained (total base) (length base) listing _ (
        unzip_members-Ends (total base) (length base) (overlay_one disk) stop
          (overlay_one-Steps (total base) (length base) disk) members 0 (start_unpacking base)
          (start-IsOpen base h))
