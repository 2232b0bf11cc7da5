-- ===== src/Update/Installer/Links.antt =====
-- The links always lead to an assembled tree, and an assembled tree never changes.
use connective.Prelude.{
  ◌&&◌, ◌||◌, not, Bool, true, false, if◌then◌else◌, List, [], ◌∷◌, Option, none, some, Text,
  text_eq, text_eq_iff, Result, ok, err, bind-ok, guard_iff, has_char, Bool-cases, ◌≡◌, inl, inr,
  refl, sym, ap, ◌∙◌,
}
use mathlib.Core.Path.{subst}
use connective.Apps.{base}
use connective.Update.Version.{wrap, parse_version}
use connective.Update.Extract.{Tree}
use connective.Update.Installer.{
  Root, InstallError, bad_target, unsafe_version, version_dir, find_tree, is_some, link_to,
  LinkFaults, switch_current, anchor, activate, activate_found, activate_in, rollback, rollback_to,
  Assembly, build_tree, place_tree, assemble, assemble_new, assemble_in, CopyFaults, promote_new,
  promote_in, promote_staged, InstallCall, assembling, promoting, activating, rolling_back,
  install_step, run_calls,
}

-- The link leads to a tree under `versions`.
abbrev pub LeadsTo : List (Text × Tree) → Option Text → Type 0
LeadsTo dirs none = Unit
LeadsTo dirs (some link) =
    (v : Text) × (t : Tree) × (link ≡ link_to v) × (find_tree v dirs ≡ some t)

-- Trees may be added to the directory, and none is changed.
abbrev pub Grows : List (Text × Tree) → List (Text × Tree) → Type 0
Grows old new = (v : Text) (t : Tree) → find_tree v old ≡ some t → find_tree v new ≡ some t

LeadsTo-Grows :
    (old new : List (Text × Tree)) (l : Option Text) → Grows old new → LeadsTo old l → LeadsTo new l
LeadsTo-Grows old new none g h = tt
LeadsTo-Grows old new (some link) g (v, t, e, f) = (v, t, e, g v t f)

-- Both links lead to a tree.
abbrev pub IsSound : Root → Type 0
IsSound r = LeadsTo r.versions r.current × LeadsTo r.versions r.previous

-- What every operation does to the install root.
abbrev pub Keeps : Root → Root → Type 0
Keeps r s = (IsSound r → IsSound s) × Grows r.versions s.versions

Keeps-refl : (r : Root) → Keeps r r
Keeps-refl r = ((λ h. h), (λ v t h. h))

Keeps-if :
    {A : Type 0} (r : Root) (b : Bool) (p q : Root × A)
    → Keeps r p.0
    → Keeps r q.0
    → Keeps r (if b then p else q).0
Keeps-if r true p q h k = h
Keeps-if r false p q h k = k

find-some : (o : Option Tree) → is_some o ≡ true → (t : Tree) × (o ≡ some t)
find-some none h = cc
find-some (some t) h = (t, refl)

find-none : (o : Option Tree) → is_some o ≡ false → o ≡ none
find-none none h = refl
find-none (some t) h = cc

add-Grows :
    (dirs : List (Text × Tree)) (dir : Text) (tree : Tree)
    → find_tree dir dirs ≡ none
    → Grows dirs ((dir, tree) ∷ dirs)
unfolding find_tree
add-Grows dirs dir tree n v t h = elim (Bool-cases (text_eq dir v)) [
  | inr e ↦ rw e h
  | inl e ↦
      let same : dir ≡ v = (text_eq_iff dir v).0 e in
      let clash : none ≡ some t = sym (subst (λ x. find_tree x dirs ≡ none) same n) ∙ h in cc
]

-- A tree under a new name.
add_tree :
    (r : Root) (dir : Text) (tree : Tree)
    → find_tree dir r.versions ≡ none
    → Keeps r (record r { versions = (dir, tree) ∷ r.versions })
add_tree r dir tree n =
    let g = add-Grows r.versions dir tree n in
    (
      (λ h. (
        LeadsTo-Grows r.versions ((dir, tree) ∷ r.versions) r.current g h.0,
        LeadsTo-Grows r.versions ((dir, tree) ∷ r.versions) r.previous g h.1,
      )),
      g,
    )

same_trees : (r : Root) → Grows r.versions r.versions
same_trees r v t h = h

switch-Keeps :
    (f : LinkFaults) (next answer : Text) (r : Root)
    → (IsSound r → LeadsTo r.versions (some next))
    → Keeps r (switch_current f next answer r).0
switch-Keeps f next answer r h =
    Keeps-if r f.symlink_fails _ _ (Keeps-refl r)
      (Keeps-if r f.replace_fails _ _ (Keeps-refl r) ((λ s. (h s, s.1)), same_trees r))

anchor-Keeps :
    (f : LinkFaults) (target : Text) (o : Option Text) (r : Root)
    → (IsSound r → LeadsTo r.versions o)
    → LeadsTo r.versions (some (link_to target))
    → Keeps r (anchor f target o r).0
anchor-Keeps f target none r o h = switch-Keeps f (link_to target) [] r (λ _. h)
anchor-Keeps f target (some cur) r o h =
    Keeps-if r (f.remove_fails && is_some r.previous) _ _ (Keeps-refl r) (
      Keeps-if r f.anchor_fails _ _ ((λ s. (s.0, tt)), same_trees r)
        (Keeps-if r f.symlink_fails _ _ ((λ s. (s.0, o s)), same_trees r)
          (Keeps-if r f.replace_fails _ _ ((λ s. (s.0, o s)), same_trees r)
            ((λ s. (h, o s)), same_trees r))))

pub version_dir-same : (v dir : Text) → version_dir v ≡ ok dir → v ≡ dir
unfolding version_dir
version_dir-same v dir h =
    let (_, _, h1) = bind-ok (wrap bad_target (parse_version v)) _ dir h in
    let (_, e) =
      (guard_iff (not (has_char b'/' v || has_char b'\\' v)) unsafe_version (ok v) dir).0 h1 in
    cc

activate_found-Keeps :
    (f : LinkFaults) (target : Text) (r : Root) (o : Option Tree)
    → find_tree target r.versions ≡ o
    → Keeps r (activate_found f target r o).0
activate_found-Keeps f target r none q = Keeps-refl r
activate_found-Keeps f target r (some t) q =
    anchor-Keeps f target r.current r (λ k. k.0) (target, t, refl, q)

activate-Keeps : (f : LinkFaults) (target : Text) (r : Root) → Keeps r (activate f target r).0
unfolding activate
activate-Keeps f target r = go (version_dir target) refl
  where
    go :
        (d : Result InstallError Text)
        → version_dir target ≡ d
        → Keeps r (activate_in f target r d).0
    go (err e) q = Keeps-refl r
    go (ok dir) q =
        activate_found-Keeps f target r (find_tree dir r.versions)
          (ap (λ v. find_tree v r.versions) (version_dir-same target dir q))

rollback-Keeps : (f : LinkFaults) (r : Root) → Keeps r (rollback f r).0
unfolding rollback
rollback-Keeps f r = go r.previous refl
  where
    go : (o : Option Text) → r.previous ≡ o → Keeps r (rollback_to f r o).0
    go none q = Keeps-refl r
    go (some prev) q = switch-Keeps f prev (base prev) r (λ s. subst (LeadsTo r.versions) q s.1)

place_tree-Keeps :
    (a : Assembly) (dir : Text) (r : Root) (b : Result InstallError Tree)
    → find_tree dir r.versions ≡ none
    → Keeps r (place_tree a dir r b).0
place_tree-Keeps a dir r (err e) n = Keeps-refl r
place_tree-Keeps a dir r (ok tree) n = Keeps-if r a.stop_last _ _ (Keeps-refl r) (
    Keeps-if r a.make_fails _ _ (Keeps-refl r)
      (Keeps-if r a.rename_fails _ _ (Keeps-refl r) (add_tree r dir tree n)))

assemble-Keeps : (a : Assembly) (target : Text) (r : Root) → Keeps r (assemble a target r).0
unfolding assemble
assemble-Keeps a target r = go (version_dir target)
  where
    fill :
        (dir : Text) (o : Option Tree)
        → find_tree dir r.versions ≡ o
        → Keeps r (assemble_new a dir r o).0
    fill dir (some t) q = Keeps-refl r
    fill dir none q =
        Keeps-if r a.staging_fails _ _ (Keeps-refl r) (place_tree-Keeps a dir r (build_tree a r) q)

    go : (d : Result InstallError Text) → Keeps r (assemble_in a r d).0
    go (err e) = Keeps-refl r
    go (ok dir) = fill dir (find_tree dir r.versions) refl

promote_new-Keeps :
    (f : CopyFaults) (same : Bool) (dir : Text) (r : Root) (staged found : Option Tree)
    → find_tree dir r.versions ≡ found
    → Keeps r (promote_new f same dir r staged found).0
promote_new-Keeps f same dir r none found q = Keeps-refl r
promote_new-Keeps f same dir r (some tree) (some t) q = Keeps-refl r
promote_new-Keeps f same dir r (some tree) none q = Keeps-if r same _ _ (Keeps-refl r) (
    Keeps-if r f.makes_none _ _ (Keeps-refl r) (
      Keeps-if r f.copy_fails _ _ (Keeps-refl r)
        (Keeps-if r f.move_fails _ _ (Keeps-refl r) (add_tree r dir tree q))))

promote-Keeps :
    (f : CopyFaults) (staged : Option Tree) (same : Bool) (ver : Text) (r : Root)
    → Keeps r (promote_staged f staged same ver r).0
unfolding promote_staged
promote-Keeps f staged same ver r = go (version_dir ver)
  where
    go : (d : Result InstallError Text) → Keeps r (promote_in f staged same r d).0
    go (err e) = Keeps-refl r
    go (ok dir) = promote_new-Keeps f same dir r staged (find_tree dir r.versions) refl

step-Keeps : (c : InstallCall) (r : Root) → Keeps r (install_step c r)
step-Keeps (assembling a v) r = assemble-Keeps a v r
step-Keeps (promoting f staged same v) r = promote-Keeps f staged same v r
step-Keeps (activating f v) r = activate-Keeps f v r
step-Keeps (rolling_back f) r = rollback-Keeps f r

-- After any sequence of assembling, promoting, activating and rolling back, whatever the operating
-- system refuses: if `current` and `previous` led to assembled trees, or were not there, they do so now;
-- and each tree that was under `versions` is there unchanged.
pub run_calls-Keeps : (calls : List InstallCall) (r : Root) → Keeps r (run_calls calls r)
unfolding run_calls
run_calls-Keeps [] r = Keeps-refl r
run_calls-Keeps (c ∷ calls) r =
    let (s, g) = step-Keeps c r in
    let (t, k) = run_calls-Keeps calls (install_step c r) in
    ((λ h. t (s h)), (λ v x e. k v x (g v x e)))
