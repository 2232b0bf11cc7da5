-- ===== src/Update/Installer/Anchor.antt =====
-- Activation and its way back.
use connective.Prelude.{
  ◌&&◌, false, if-cases, Option, none, some, Text, Result, ok, err, ◌≡◌, inl, inr, refl, sym, ap,
}
use mathlib.Core.Path.{subst}
use connective.Apps.{base}
use connective.Update.Extract.{Tree}
use connective.Update.Installer.{
  is_some, Root, InstallError, cannot_anchor, cannot_link, cannot_replace, version_dir, find_tree,
  link_to, LinkFaults, switch_current, anchor, activate, activate_found, activate_in, rollback,
}

-- The operating system refuses nothing.
abbrev pub no_faults : LinkFaults
no_faults = record {
  remove_fails = false;
  anchor_fails = false;
  symlink_fails = false;
  replace_fails = false;
}

abbrev pub Answer : Type 0
Answer = Root × Result InstallError Text

-- The root after an activation.
abbrev pub activated : Text → Text → Root → Root
activated target cur r = record r { previous = some cur; current = some (link_to target) }

switch-ok :
    (f : LinkFaults) (next answer prev : Text) (r s : Root)
    → switch_current f next answer r ≡ (s, ok prev)
    → (record r { current = some next } ≡ s) × (answer ≡ prev)
switch-ok f next answer prev r s h =
    elim (if-cases f.symlink_fails (r, err cannot_link) _ (s, ok prev) h) [
      | inl (_, k) ↦ cc (ap (λ p. p.1) k)
      | inr (_, k) ↦
          elim (if-cases f.replace_fails (r, err cannot_replace)
            (record r { current = some next }, ok answer) (s, ok prev) k) [
              | inl (_, q) ↦ cc (ap (λ p. p.1) q)
              | inr (_, q) ↦
                  let e : ok answer ≡ ok prev = ap (λ p. p.1) q in (ap (λ p. p.0) q, cc (e))
            ]
    ]

anchor-ok :
    (f : LinkFaults) (target cur prev : Text) (r s : Root)
    → anchor f target (some cur) r ≡ (s, ok prev)
    → (activated target cur r ≡ s) × (base cur ≡ prev)
anchor-ok f target cur prev r s h =
    elim (if-cases (f.remove_fails && is_some r.previous) (r, err cannot_anchor) _ (s, ok prev) h) [
      | inl (_, k) ↦ cc (ap (λ p. p.1) k)
      | inr (_, k) ↦
          elim (if-cases f.anchor_fails (record r { previous = none }, err cannot_anchor)
            (switch_current f (link_to target) (base cur) (record r { previous = some cur }))
            (s, ok prev) k) [
              | inl (_, l) ↦ cc (ap (λ p. p.1) l)
              | inr (_, l) ↦
                  switch-ok f (link_to target) (base cur) prev (record r { previous = some cur }) s
                    l
            ]
    ]

found-ok :
    (f : LinkFaults) (target cur prev : Text) (r s : Root) (o : Option Tree)
    → r.current ≡ some cur
    → activate_found f target r o ≡ (s, ok prev)
    → (activated target cur r ≡ s) × (base cur ≡ prev)
found-ok f target cur prev r s none c h = cc (ap (λ p. p.1) h)
found-ok f target cur prev r s (some t) c h =
    anchor-ok f target cur prev r s (subst (λ o. anchor f target o r ≡ (s, ok prev)) c h)

activate-ok :
    (f : LinkFaults) (target cur prev : Text) (r s : Root)
    → r.current ≡ some cur
    → activate f target r ≡ (s, ok prev)
    → (activated target cur r ≡ s) × (base cur ≡ prev)
unfolding activate
activate-ok f target cur prev r s c h = go (version_dir target) h
  where
    go :
        (d : Result InstallError Text)
        → activate_in f target r d ≡ (s, ok prev)
        → (activated target cur r ≡ s) × (base cur ≡ prev)
    go (err e) k = cc (ap (λ p. p.1) k)
    go (ok dir) k = found-ok f target cur prev r s (find_tree dir r.versions) c k

-- When a version was current and another is activated, a rollback that nothing refuses brings the first
-- one back: `current` is again what it was, no tree is touched, and both calls answer its name.
pub rollback-activate :
    (f : LinkFaults) (target cur prev : Text) (r s : Root)
    → r.current ≡ some cur
    → activate f target r ≡ (s, ok prev)
    → (rollback no_faults s ≡ (record r { previous = some cur }, ok prev)) × (prev ≡ base cur)
unfolding rollback
rollback-activate f target cur prev r s c h =
    let (e, p) = activate-ok f target cur prev r s c h in
    let back : rollback no_faults (activated target cur r)
        ≡ (record r { previous = some cur; current = some cur }, ok (base cur)) =
      refl in
    let same : record r { previous = some cur; current = some cur }
        ≡ record r { previous = some cur } =
      ap (λ o. record r { previous = some cur; current = o }) (sym c) in
    (
      subst (λ x. rollback no_faults x ≡ (record r { previous = some cur }, ok prev)) e
          (rw (sym same, sym p) back),
      sym p,
    )
