-- ===== src/Update/Installer/Active.antt =====
-- What is active after `Activate`.
use connective.Prelude.{
  ◌&&◌, ◌||◌, not, Bool, true, false, if◌then◌else◌, [], ◌∷◌, ◌++◌, Option, none, some, Text, codes,
  is_empty, has_char, Result, ok, err, bind-ok, guard_iff, trim_space, ◌≡◌, refl, sym, ◌∙◌, arith,
}
use connective.Apps.{base, drop_slashes, has_slash, after_slash, or_slash}
use connective.Update.Version.{wrap, parse_version}
use connective.Update.Extract.{Tree}
use connective.Update.Installer.{
  is_some, Root, InstallError, bad_target, unsafe_version, version_dir, find_tree, link_to,
  LinkFaults, anchor, activate, activate_found, activate_in, current_version,
}

has_slash-same : (s : Text) → has_char b'/' s ≡ has_slash s
unfolding has_char has_slash
has_slash-same [] = refl
has_slash-same (c ∷ s) = rw (has_slash-same s) refl

drop_slashes-same : (t : Text) → has_slash t ≡ false → drop_slashes t ≡ t
unfolding drop_slashes has_slash
drop_slashes-same [] h = refl
drop_slashes-same (c ∷ t) h = ground (arith, h, drop_slashes-same t)

append-some : (p t : Text) → is_empty t ≡ false → is_empty (p ++ t) ≡ false
append-some [] t h = h
append-some (c ∷ p) t h = refl

drop_slashes-append :
    (p t : Text) → is_empty t ≡ false → has_slash t ≡ false → drop_slashes (p ++ t) ≡ p ++ t
unfolding drop_slashes
drop_slashes-append [] t n h = drop_slashes-same t h
drop_slashes-append (c ∷ p) t n h = rw (drop_slashes-append p t n h, append-some p t n) refl

has_slash-append : (p t : Text) → has_slash (p ++ b'/' ∷ t) ≡ true
unfolding has_slash
has_slash-append [] t = refl
has_slash-append (c ∷ p) t = ground (arith, has_slash-append p t)

after_slash-append : (p t : Text) → has_slash t ≡ false → after_slash (p ++ b'/' ∷ t) ≡ t
unfolding after_slash
after_slash-append [] t h = rw h refl
after_slash-append (c ∷ p) t h = rw (has_slash-append p t) (after_slash-append p t h)

or_slash-some : (t : Text) → is_empty t ≡ false → or_slash t ≡ t
or_slash-some t h = rw h refl

base-link : (t : Text) → is_empty t ≡ false → has_char b'/' t ≡ false → base (link_to t) ≡ t
unfolding base
base-link t n h =
    let k : has_slash t ≡ false = sym (has_slash-same t) ∙ h in
    let d : drop_slashes (link_to t) ≡ link_to t = drop_slashes-append (codes "versions/") t n k in
    let a : after_slash (link_to t) ≡ t = after_slash-append (codes "versions") t k in
    rw (d, a) (or_slash-some t n)

not-or : (a b : Bool) → not (a || b) ≡ true → a ≡ false
not-or true b h = cc
not-or false b h = refl

version_dir-plain :
    (v dir : Text) → version_dir v ≡ ok dir → (is_empty v ≡ false) × (has_char b'/' v ≡ false)
unfolding version_dir parse_version trim_space
version_dir-plain [] dir h = cc
version_dir-plain (c ∷ v) dir h =
    let (_, _, h1) = bind-ok (wrap bad_target (parse_version (c ∷ v))) _ dir h in
    let (e, _) =
      (guard_iff (not (has_char b'/' (c ∷ v) || has_char b'\\' (c ∷ v))) unsafe_version (ok (c ∷ v))
          dir).0
        h1 in
    (refl, not-or _ _ e)

-- The target is active, or there was an error and what was active still is.
abbrev pub Switched : Text → Root → Root × Result InstallError Text → Type 0
Switched target r (s, ok _) = (current_version s ≡ target) × (s.versions ≡ r.versions)
Switched target r (s, err e) = (s.current ≡ r.current) × (s.versions ≡ r.versions)

Switched-if :
    (target : Text) (r : Root) (b : Bool) (p q : Root × Result InstallError Text)
    → Switched target r p
    → Switched target r q
    → Switched target r (if b then p else q)
Switched-if target r true p q h k = h
Switched-if target r false p q h k = k

found-Switched :
    (f : LinkFaults) (target : Text) (r : Root) (o : Option Tree)
    → base (link_to target) ≡ target
    → Switched target r (activate_found f target r o)
unfolding current_version
found-Switched f target r none b = (refl, refl)
found-Switched f target r (some t) b = go r.current
  where
    go : (o : Option Text) → Switched target r (anchor f target o r)
    go none =
        Switched-if target r f.symlink_fails _ _ (refl, refl)
          (Switched-if target r f.replace_fails _ _ (refl, refl) (b, refl))
    go (some cur) =
        Switched-if target r (f.remove_fails && is_some r.previous) _ _ (refl, refl)
          (Switched-if target r f.anchor_fails _ _ (refl, refl)
            (Switched-if target r f.symlink_fails _ _ (refl, refl)
              (Switched-if target r f.replace_fails _ _ (refl, refl) (b, refl))))

-- When `Activate` succeeds, `Current` answers the target; when it reports an error, of whatever kind,
-- `current` is the link that it was. No tree is touched in either case.
pub activate-Switched :
    (f : LinkFaults) (target : Text) (r : Root) → Switched target r (activate f target r)
unfolding activate
activate-Switched f target r = go (version_dir target) refl
  where
    go :
        (d : Result InstallError Text)
        → version_dir target ≡ d
        → Switched target r (activate_in f target r d)
    go (err e) q = (refl, refl)
    go (ok dir) q =
        let (n, h) = version_dir-plain target dir q in
        found-Switched f target r (find_tree dir r.versions) (base-link target n h)
