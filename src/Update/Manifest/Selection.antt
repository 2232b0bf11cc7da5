-- ===== src/Update/Manifest/Selection.antt =====
-- `SelectArtifact`: which artifact is chosen.
use connective.Prelude.{
  List, [], ◌∷◌, Option, none, some, Text, text_eq, Result-cases, ok, err, ◌≡◌, ◌⊎◌, sym, ap, ◌∙◌,
  All, inl, inr, refl, arith, Bool-cases,
}
use mathlib.Core.Path.{subst}
use connective.Prelude.Int.{ltb_ℤ, ◌<ℤ◌, ◌≤ℤ◌}
use connective.Update.Version.{Version, parse_version}
use connective.Update.Manifest.{
  Artifact, Manifest, artifact_full, scan, choose, select_artifact, full_artifact_of,
  bad_current_version, no_full_artifact,
}
use connective.Update.Manifest.Best.{Member, IsUsableDelta, scan-full, scan-Best, BestOption}

-- What `SelectArtifact` promises of the artifact that it returns.
pub record IsChosen (cur : Version) (as' : List Artifact) (a : Artifact) : Type 0 where
  pub full : Artifact
  pub first_full : full_artifact_of as' ≡ some full
  pub choice :
      ((a ≡ full) × All (λ d. IsUsableDelta cur d → full.size ≤ℤ d.size) as')
      ⊎ (Member a as'
          × (IsUsableDelta cur a)
          × (a.size <ℤ full.size)
          × All (λ d. IsUsableDelta cur d → a.size ≤ℤ d.size) as')

All-weaken :
    {P Q : Artifact → Type 0} (as' : List Artifact)
    → ((a : Artifact) → P a → Q a)
    → All P as'
    → All Q as'
All-weaken [] f h = tt
All-weaken (a ∷ as') f h = (f a h.0, All-weaken as' f h.1)

choose-IsChosen :
    (cur : Version) (as' : List Artifact) (full : Artifact) (delta : Option Artifact)
    → full_artifact_of as' ≡ some full
    → BestOption cur none as' delta
    → (a : Artifact) × (choose (some full, delta) ≡ ok a) × IsChosen cur as' a
choose-IsChosen cur as' full none e b = (
  full,
  refl,
  record {
    full = full;
    first_full = e;
    choice = inl (refl, All-weaken as' (λ a n u. absurd (n u)) b.1);
  },
)
choose-IsChosen cur as' full (some d) e b = elim (Bool-cases (ltb_ℤ d.size full.size)) [
  | inl h ↦ (
    d,
    rw h,
    record {
      full = full;
      first_full = e;
      choice = inr ((delta_origin b.origin).0, (delta_origin b.origin).1, ground arith, b.least);
    },
  )
  | inr h ↦ (
    full,
    rw h,
    record {
      full = full;
      first_full = e;
      choice = inl (refl, All-weaken as' (λ a l u. ground (arith, l u)) b.least);
    },
  )
]
  where
    delta_origin :
        (none ≡ some d) ⊎ (Member d as' × IsUsableDelta cur d) → Member d as' × IsUsableDelta cur d
    delta_origin (inl e) = cc
    delta_origin (inr m) = m

-- Where the current version parses, `SelectArtifact` fails exactly when the manifest has no full
-- artifact. Otherwise it returns the first full artifact, unless a delta made from exactly the current
-- version is strictly smaller: then it returns such a delta from the manifest, of the least size.
pub select_artifact_lem :
    (current : Text) (m : Manifest) (cur : Version)
    → parse_version current ≡ ok cur
    → ((full_artifact_of m.artifacts ≡ none) × (select_artifact current m ≡ err no_full_artifact))
      ⊎ ((a : Artifact) × (select_artifact current m ≡ ok a) × IsChosen cur m.artifacts a)
unfolding select_artifact
select_artifact_lem current m cur e = rw e (go (scan cur (none, none) m.artifacts) refl)
  where
    go :
        (b : Option Artifact × Option Artifact)
        → scan cur (none, none) m.artifacts ≡ b
        → ((full_artifact_of m.artifacts ≡ none)
            × (choose (scan cur (none, none) m.artifacts) ≡ err no_full_artifact))
          ⊎ ((a : Artifact) × (choose (scan cur (none, none) m.artifacts) ≡ ok a)
              × IsChosen cur m.artifacts a)
    go (none, delta) p = inl (sym (scan-full cur (none, none) m.artifacts) ∙ ap (λ b. b.0) p, rw p)
    go (some full, delta) p = rw p (
        inr (
          choose-IsChosen cur m.artifacts full delta
            (sym (scan-full cur (none, none) m.artifacts) ∙ ap (λ b. b.0) p)
            (subst (λ b. BestOption cur none m.artifacts b.1) p
              (scan-Best cur (none, none) m.artifacts))))

pub full_artifact_of-Member :
    (as' : List Artifact) (f : Artifact) → full_artifact_of as' ≡ some f → Member f as'
unfolding full_artifact_of
full_artifact_of-Member [] f e = cc
full_artifact_of-Member (a ∷ as') f e = elim (Bool-cases (text_eq a.type artifact_full)) [
  | inl h ↦
      let same : a ≡ f = ground (arith, rw h at e) in
      subst (λ x. Member x (a ∷ as')) same Member.head
  | inr h ↦ Member.tail (full_artifact_of-Member as' f (rw h at e))
]

choice-Member :
    (cur : Version) (as' : List Artifact) (a : Artifact) (k : IsChosen cur as' a) → Member a as'
choice-Member cur as' a k = elim k.choice [
  | inl (e, n) ↦ subst (λ x. Member x as') (sym e) (full_artifact_of-Member as' k.full k.first_full)
  | inr (m, u, l, n) ↦ m
]

-- What is selected stands in the manifest.
pub select_artifact-Member :
    (current : Text) (m : Manifest) (a : Artifact)
    → select_artifact current m ≡ ok a
    → Member a m.artifacts
select_artifact-Member current m a e = elim (Result-cases (parse_version current)) [
  | inr (x, p) ↦
      let bad : select_artifact current m ≡ err (bad_current_version x) =
        unfold select_artifact in (rw p) in
      cc (bad, e)
  | inl (cur, p) ↦ elim (select_artifact_lem current m cur p) [
    | inl (n, q) ↦ cc (q, e)
    | inr (b, q, k) ↦
        let same : b ≡ a = ground (arith, q, e) in
        subst (λ x. Member x m.artifacts) same (choice-Member cur m.artifacts b k)
  ]
]
