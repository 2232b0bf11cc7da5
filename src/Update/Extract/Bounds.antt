-- ===== src/Update/Extract/Bounds.antt =====
-- What unpacking can write: paths inside the directory, and no more than the budget.
use connective.Prelude.{
  ||_false, ℕ, suc, ◌+◌, ◌-◌, ◌≤◌, ◌<◌, ◌||◌, ltb, leb, not, Bool, true, false, if◌then◌else◌, [],
  ◌∷◌, Text, text_eq, length, length-keep, All, All-keep, Result, ok, err, ◌≡◌, refl, arith,
}
use connective.Update.Extract.{
  Member, Tree, remove, put, Unpacking, UnzipError, Disk, copy_member, unzip_file, unzip_one,
  max_unzip_files, max_unzip_total_bytes,
}
use connective.Update.Extract.Clean.{dot, is_rooted, clean, leads_up, IsInside, clean-IsInside}

abbrev pub Outcome : Type 0
Outcome = Unpacking × Result UnzipError (Unit {0})

unfoldable pub total : Tree → ℕ
total [] = 0
total (f ∷ tree) = length f.1 + total tree

-- Every file stands inside, they hold at most `bytes`, and there are at most `count` of them.
pub record IsContained (bytes count : ℕ) (tree : Tree) : Type 0 where
  pub inside : All (λ f. IsInside f.0) tree
  pub bytes_bound : total tree ≤ bytes
  pub count_bound : length tree ≤ count

-- The state between two members, for a base tree of `bytes` in `count` files.
pub record IsOpen (bytes count : ℕ) (u : Unpacking) : Type 0 where
  pub all_inside : All (λ f. IsInside f.0) u.tree
  pub budget : total u.tree + u.remaining ≤ bytes + max_unzip_total_bytes
  pub counted : length u.tree ≤ count + u.files
  pub files_bound : u.files ≤ max_unzip_files

module _ (bytes count : ℕ) where
  abbrev pub Contained : Unpacking → Type 0
  Contained u = IsContained (bytes + max_unzip_total_bytes) (count + max_unzip_files) u.tree

  abbrev pub Ends : Outcome → Type 0
  Ends (u, ok _) = IsOpen bytes count u
  Ends (u, err e) = Contained u

  pub IsOpen-Contained : (u : Unpacking) → IsOpen bytes count u → Contained u
  IsOpen-Contained u h = record {
    inside = h.all_inside;
    bytes_bound = omega (arith, h.budget);
    count_bound = omega (arith, h.counted, h.files_bound);
  }

  pub Ends-if :
      (b : Bool) (x y : Outcome)
      → (b ≡ true → Ends x)
      → (b ≡ false → Ends y)
      → Ends (if b then x else y)
  Ends-if true x y f g = f refl
  Ends-if false x y f g = g refl

pub total-remove : (path : Text) (tree : Tree) → total (remove path tree) ≤ total tree
unfolding total remove
total-remove path [] = omega arith
total-remove path (f ∷ tree) = ground (arith, total-remove path tree)

pub length-remove : (path : Text) (tree : Tree) → length (remove path tree) ≤ length tree
unfolding remove
length-remove path tree = length-keep _ tree

pub remove-IsInside :
    (path : Text) (tree : Tree)
    → All (λ f. IsInside f.0) tree
    → All (λ f. IsInside f.0) (remove path tree)
unfolding remove
remove-IsInside path tree h = All-keep (λ f. IsInside f.0) _ tree h

abbrev pub counting : Unpacking → Unpacking
counting u = record u { files = suc u.files }

module _ (bytes count : ℕ) where
  counting-Contained : (u : Unpacking) → IsOpen bytes count u → Contained bytes count (counting u)
  counting-Contained u h = IsOpen-Contained bytes count u h

  counting-IsOpen :
      (u : Unpacking)
      → IsOpen bytes count u
      → u.files < max_unzip_files
      → IsOpen bytes count (counting u)
  counting-IsOpen u h f = record {
    all_inside = h.all_inside;
    budget = h.budget;
    counted = omega (arith, h.counted);
    files_bound = omega (arith, f);
  }

  put-Contained :
      (rel content : Text) (u : Unpacking)
      → IsInside rel
      → IsOpen bytes count u
      → u.files < max_unzip_files
      → length content ≤ u.remaining
      → IsContained
          (bytes + max_unzip_total_bytes)
          (count + max_unzip_files)
          (put rel content u.tree)
  unfolding total
  put-Contained rel content u i h f k = record {
    inside = (i, remove-IsInside rel u.tree h.all_inside);
    bytes_bound = omega (arith, total-remove rel u.tree, h.budget, k);
    count_bound = omega (arith, length-remove rel u.tree, h.counted, f);
  }

  put-IsOpen :
      (rel content : Text) (u : Unpacking)
      → IsInside rel
      → IsOpen bytes count u
      → u.files < max_unzip_files
      → length content ≤ u.remaining
      → IsOpen bytes count (record u {
        files = suc u.files;
        tree = put rel content u.tree;
        remaining = u.remaining - length content;
      })
  unfolding total
  put-IsOpen rel content u i h f k = record {
    all_inside = (i, remove-IsInside rel u.tree h.all_inside);
    budget = omega (arith, total-remove rel u.tree, h.budget, k);
    counted = omega (arith, length-remove rel u.tree, h.counted);
    files_bound = omega (arith, f);
  }

  removed-Contained :
      (rel : Text) (u : Unpacking)
      → IsOpen bytes count u
      → IsContained (bytes + max_unzip_total_bytes) (count + max_unzip_files) (remove rel u.tree)
  removed-Contained rel u h = record {
    inside = remove-IsInside rel u.tree h.all_inside;
    bytes_bound = omega (arith, total-remove rel u.tree, h.budget);
    count_bound = omega (arith, length-remove rel u.tree, h.counted, h.files_bound);
  }

  copy_member-Ends :
      (m : Member) (rel : Text) (u : Unpacking)
      → IsInside rel
      → IsOpen bytes count u
      → u.files < max_unzip_files
      → Ends bytes count (copy_member m rel (counting u))
  unfolding copy_member
  copy_member-Ends m rel u i h f =
      Ends-if bytes count (leb (length m.bytes) u.remaining) _ _
        (λ e.
          Ends-if bytes count m.breaks _ _
            (λ _. put-Contained rel m.bytes u i h f (ground (arith, e)))
            (λ _. put-IsOpen rel m.bytes u i h f (ground (arith, e))))
        (λ _. removed-Contained rel u h)

  unzip_file-Ends :
      (disk : Disk) (m : Member) (rel : Text) (u : Unpacking)
      → IsInside rel
      → IsOpen bytes count u
      → u.files < max_unzip_files
      → Ends bytes count (unzip_file disk m rel (counting u))
  unfolding unzip_file
  unzip_file-Ends disk m rel u i h f =
      let c = counting-Contained u h in
      Ends-if bytes count (ltb u.remaining m.declared_size) _ _ (λ _. c)
        (λ _.
          Ends-if bytes count (not (disk.makes rel)) _ _ (λ _. c)
            (λ _.
              Ends-if bytes count (not m.opens) _ _ (λ _. c)
                (λ _.
                  Ends-if bytes count (disk.creates rel) _ _ (λ _. copy_member-Ends m rel u i h f)
                    (λ _. c))))

  pub unzip_one-Ends :
      (disk : Disk) (m : Member) (u : Unpacking)
      → IsOpen bytes count u
      → Ends bytes count (unzip_one disk m u)
  unfolding unzip_one
  unzip_one-Ends disk m u h =
      let c = counting-Contained u h in
      let rel = clean m.name in
      Ends-if bytes count (is_rooted m.name) _ _ (λ _. IsOpen-Contained bytes count u h)
        (λ r.
          Ends-if bytes count (text_eq rel dot || leads_up rel) _ _
            (λ _. IsOpen-Contained bytes count u h)
            (λ d.
              Ends-if bytes count (ltb max_unzip_files (suc u.files)) _ _ (λ _. c)
                (λ f.
                  let k : u.files < max_unzip_files = ground (arith, f) in
                  Ends-if bytes count m.is_dir _ _
                    (λ _.
                      Ends-if bytes count (disk.makes rel) _ _ (λ _. counting-IsOpen u h k)
                        (λ _. c))
                    (λ _.
                      unzip_file-Ends disk m rel u
                        (clean-IsInside m.name r (||_false _ _ d).0 (||_false _ _ d).1) h k))))
