-- ===== src/Update/Extract/Listing.antt =====
-- The listing of a delta: its paths stay inside, and only listed files are left.
use connective.Prelude.{
  ||_false, ℕ, suc, ◌+◌, ◌≤◌, ◌||◌, ◌&&◌, ltb, leb, not, Bool, true, false, if-cases, List, [], ◌∷◌,
  some, Text, is_empty, trim_space, split, length, keep, map, All, Result, ok, err, guard_iff,
  bind-ok, ◌≡◌, inl, inr, refl, Bool-cases, arith,
}
use mathlib.Core.Path.{subst}
use connective.Servers.{is_among}
use connective.Update.Extract.{
  Member, Tree, drop_missing, Unpacking, start_unpacking, UnzipError, unsafe_listing,
  too_many_files, listed, read_delta_listing, listing_of, find_listing, overlaid, unzip_members,
  overlay_one, apply_delta, Disk, max_unzip_files, max_listing_bytes, listing_too_large,
  cannot_open, cannot_read,
}
use connective.Update.Extract.Clean.{is_rooted, clean, leads_up}

-- A cleaned relative path that does not lead up.
abbrev pub IsRelative : Text → Type 0
IsRelative p = (q : Text) × (p ≡ clean q) × (is_rooted p ≡ false) × (leads_up p ≡ false)

pub record IsListing (n : ℕ) (paths : List Text) : Type 0 where
  pub all_relative : All IsRelative paths
  pub few : length paths + n ≤ max_unzip_files

listed-IsListing :
    (lines : List Text) (n : ℕ) (paths : List Text)
    → n ≤ max_unzip_files
    → listed n lines ≡ ok paths
    → IsListing n paths
unfolding listed
listed-IsListing [] n paths k h =
    let q : [] ≡ paths = cc in
    subst (IsListing n) q (record { all_relative = tt; few = omega (arith, k) })
listed-IsListing (l ∷ lines) n paths k h =
    let path = clean (trim_space l) in
    elim (if-cases (is_empty (trim_space l)) (listed n lines) _ (ok paths) h) [
      | inl (_, e) ↦ listed-IsListing lines n paths k e
      | inr (_, e) ↦
          elim (if-cases (is_rooted path || leads_up path) (err unsafe_listing) _ (ok paths) e) [
            | inl (_, f) ↦ cc
            | inr (r, f) ↦
                elim (if-cases (ltb max_unzip_files (suc n)) (err too_many_files) _ (ok paths) f) [
                  | inl (_, g) ↦ cc
                  | inr (t, g) ↦
                      let (rest, a, b) =
                        bind-ok (listed (suc n) lines) (λ rest. ok (path ∷ rest)) paths g in
                      let q : path ∷ rest ≡ paths = cc in
                      let i = listed-IsListing lines (suc n) rest (ground (arith, t)) a in
                      subst (IsListing n) q (record {
                        all_relative = (
                          (trim_space l, refl, (||_false _ _ r).0, (||_false _ _ r).1),
                          i.all_relative,
                        );
                        few = omega (arith, i.few);
                      })
                ]
          ]
    ]

-- A listing that `readDeltaListing` accepts has at most 10000 paths, each of them cleaned, relative and
-- without a step up.
pub read_delta_listing-IsListing :
    (m : Member) (paths : List Text) → read_delta_listing m ≡ ok paths → IsListing 0 paths
unfolding read_delta_listing
read_delta_listing-IsListing m paths h =
    let (_, h1) =
      (guard_iff (not (ltb max_listing_bytes m.declared_size)) listing_too_large _ paths).0 h in
    let (_, h2) = (guard_iff m.opens cannot_open _ paths).0 h1 in
    let (_, h3) =
      (guard_iff (not (m.breaks && leb (length m.bytes) max_listing_bytes)) cannot_read _ paths).0
        h2 in
    let (_, h4) =
      (guard_iff (not (ltb max_listing_bytes (length m.bytes))) listing_too_large _ paths).0 h3 in
    listed-IsListing (split 10 m.bytes) 0 paths (omega arith) h4

keep-All : {A : Type 0} (p : A → Bool) (xs : List A) → All (λ x. p x ≡ true) (keep p xs)
keep-All p [] = tt
keep-All p (x ∷ xs) = elim (Bool-cases (p x)) [
  | inl e ↦ rw e (e, keep-All p xs)
  | inr e ↦ rw e (keep-All p xs)
]

-- When a delta carries a listing of at least one path and is applied, each file of the new tree is one that
-- the listing names: what the new version dropped is gone.
pub apply_delta-IsListed :
    (disk : Disk) (stop : ℕ → Bool) (base : Tree) (members : List Member) (m : Member) (path : Text)
    (paths : List Text)
    → find_listing members ≡ some m
    → read_delta_listing m ≡ ok (path ∷ paths)
    → (apply_delta disk false stop (some base) (some members)).1 ≡ ok tt
    → All
        (λ f. is_among f.0 (map clean (path ∷ paths)) ≡ true)
        (apply_delta disk false stop (some base) (some members)).0.tree
unfolding apply_delta
apply_delta-IsListed disk stop base members m path paths f r =
    let has : listing_of (find_listing members) ≡ ok (some (path ∷ paths)) =
      rw (f, listing_of, r) refl in
    rw has (go (unzip_members (overlay_one disk) stop 0 members (start_unpacking base)))
  where
    go :
        (o : Unpacking × Result UnzipError (Unit {0}))
        → (overlaid (some (path ∷ paths)) o).1 ≡ ok tt
        → All
            (λ f. is_among f.0 (map clean (path ∷ paths)) ≡ true)
            (overlaid (some (path ∷ paths)) o).0.tree
    go (u, err e) k = cc
    go (u, ok _) k = unfold drop_missing in keep-All _ u.tree
