-- ===== src/Update/Manifest/Best.antt =====
-- The scan of `SelectArtifact`: the first full artifact and the smallest usable delta.
use connective.Prelude.{
  true, false, List, [], ◌∷◌, Option, none, some, text_eq, text_eq_iff, Result, ok, err, ◌≡◌, ◌⊎◌,
  sym, ◌∙◌, All, inl, inr, refl, arith, Bool-cases,
}
use mathlib.Core.Path.{subst}
use connective.Prelude.Int.{◌≤ℤ◌}
use connective.Update.Version.{Version, VersionError, parse_version}
use connective.Update.Version.Order.{compare_version-order}
use connective.Update.Manifest.{
  Artifact, artifact_full, artifact_delta, fits_current, parses_to, is_smaller, consider, scan,
  full_artifact_of,
}

abbrev or_else : Option Artifact → Option Artifact → Option Artifact
or_else none o = o
or_else (some a) o = some a

-- The artifact stands in the list.
pub data Member (a : Artifact) : List Artifact → Type 0 where
  head : {as' : List Artifact} → Member a (a ∷ as')
  tail : {b : Artifact} {as' : List Artifact} → Member a as' → Member a (b ∷ as')

-- A delta that may be laid over the installed version.
pub record IsUsableDelta (cur : Version) (a : Artifact) : Type 0 where
  pub is_delta : a.type ≡ artifact_delta
  pub from_current : parse_version a.from_version ≡ ok cur

full-not_usable : (cur : Version) (a : Artifact) → a.type ≡ artifact_full → ¬ IsUsableDelta cur a
full-not_usable cur a e u =
    cc ((text_eq_iff artifact_full artifact_delta).1 (sym e ∙ u.is_delta), names_differ)
  where
    names_differ : text_eq artifact_full artifact_delta ≡ false
    names_differ = unfold text_eq in refl

other-not_usable :
    (cur : Version) (a : Artifact) → text_eq a.type artifact_delta ≡ false → ¬ IsUsableDelta cur a
other-not_usable cur a e u = cc ((text_eq_iff a.type artifact_delta).1 u.is_delta)

parses_to-ok :
    (cur : Version) (r : Result VersionError Version) → parses_to cur r ≡ true → r ≡ ok cur
parses_to-ok cur (err e) h = cc
parses_to-ok cur (ok from) h = ground (arith, (compare_version-order from cur).0.0)

fits_current-from :
    (cur : Version) (a : Artifact)
    → fits_current cur a ≡ true
    → parse_version a.from_version ≡ ok cur
unfolding fits_current
fits_current-from cur a h = parses_to-ok cur (parse_version a.from_version) h

usable-fits : (cur : Version) (a : Artifact) → IsUsableDelta cur a → fits_current cur a ≡ true
unfolding fits_current
usable-fits cur a u = ground (arith, u.from_current, (compare_version-order cur cur).0.1 refl)

-- `d` is the smallest of the delta that was held at the start and the usable ones in the list.
pub record Best (cur : Version) (start : Option Artifact) (as' : List Artifact) (d : Artifact)
    : Type 0 where
  pub origin : (start ≡ some d) ⊎ (Member d as' × IsUsableDelta cur d)
  least_start : (s : Artifact) → start ≡ some s → d.size ≤ℤ s.size
  pub least : All (λ x. IsUsableDelta cur x → d.size ≤ℤ x.size) as'

abbrev pub BestOption : Version → Option Artifact → List Artifact → Option Artifact → Type 0
BestOption cur start as' none = (start ≡ none) × All (λ x. ¬ IsUsableDelta cur x) as'
BestOption cur start as' (some d) = Best cur start as' d

-- An artifact that is passed over changes nothing.
Best-skip :
    (cur : Version) (start : Option Artifact) (a : Artifact) (as' : List Artifact)
    (r : Option Artifact)
    → (IsUsableDelta cur a → (s : Artifact) × (start ≡ some s) × (s.size ≤ℤ a.size))
    → BestOption cur start as' r
    → BestOption cur start (a ∷ as') r
Best-skip cur start a as' none n b = (b.0, (λ u. cc (b.0, (n u).1), b.1))
Best-skip cur start a as' (some d) n b = record {
  origin = tail_of b.origin;
  least_start = b.least_start;
  least = (λ u. omega (arith, b.least_start (n u).0 (n u).1, (n u).2), b.least);
}
  where
    tail_of :
        (start ≡ some d) ⊎ (Member d as' × IsUsableDelta cur d)
        → (start ≡ some d) ⊎ (Member d (a ∷ as') × IsUsableDelta cur d)
    tail_of (inl e) = inl e
    tail_of (inr (m, u)) = inr (Member.tail m, u)

-- A usable delta that is smaller than the one held takes its place.
Best-take :
    (cur : Version) (start : Option Artifact) (a : Artifact) (as' : List Artifact)
    (r : Option Artifact)
    → IsUsableDelta cur a
    → is_smaller a start ≡ true
    → BestOption cur (some a) as' r
    → BestOption cur start (a ∷ as') r
Best-take cur start a as' none u h b = cc (b.0)
Best-take cur start a as' (some d) u h b = record {
  origin = inr (from b.origin);
  least_start = below start h;
  least = (λ _. b.least_start a refl, b.least);
}
  where
    from :
        (some a ≡ some d) ⊎ (Member d as' × IsUsableDelta cur d)
        → Member d (a ∷ as') × IsUsableDelta cur d
    from (inl e) =
        let same : a ≡ d = ground arith in
        (subst (λ x. Member x (a ∷ as')) same Member.head, subst (IsUsableDelta cur) same u)
    from (inr (m, v)) = (Member.tail m, v)

    below :
        (o : Option Artifact)
        → is_smaller a o ≡ true
        → (s : Artifact) → o ≡ some s
        → d.size ≤ℤ s.size
    below none g s e = cc
    below (some t) g s e = ground (arith, b.least_start a refl)

-- The four ways of one round.
abbrev KeepsDelta : Version → Option Artifact → Artifact → Type 0
KeepsDelta cur delta a =
    IsUsableDelta cur a → (s : Artifact) × (delta ≡ some s) × (s.size ≤ℤ a.size)

held :
    (o : Option Artifact) (a : Artifact)
    → is_smaller a o ≡ false
    → (s : Artifact) × (o ≡ some s) × (s.size ≤ℤ a.size)
held none a h = cc
held (some s) a h = (s, refl, ground arith)

consider-cases :
    (cur : Version) (full delta : Option Artifact) (a : Artifact)
    → (((consider cur (full, delta) a).1 ≡ delta) × KeepsDelta cur delta a)
      ⊎ (((consider cur (full, delta) a).1 ≡ some a)
          × (IsUsableDelta cur a × (is_smaller a delta ≡ true)))
unfolding consider
consider-cases cur full delta a = elim (Bool-cases (text_eq a.type artifact_full)) [
  | inl e ↦ inl (rw e, λ u. absurd (full-not_usable cur a ((text_eq_iff _ _).0 e) u))
  | inr e ↦ elim (Bool-cases (text_eq a.type artifact_delta)) [
    | inr f ↦ inl (rw (e, f), λ u. absurd (other-not_usable cur a f u))
    | inl f ↦ elim (Bool-cases (fits_current cur a)) [
      | inr g ↦ inl (rw (e, f, g), λ u. cc (usable-fits cur a u))
      | inl g ↦ elim (Bool-cases (is_smaller a delta)) [
        | inr h ↦ inl (rw (e, f, g, h), λ u. held delta a h)
        | inl h ↦ inr (
          rw (e, f, g, h),
          (
            record { is_delta = (text_eq_iff _ _).0 f; from_current = fits_current-from cur a g },
            h,
          ),
        )
      ]
    ]
  ]
]

consider-full :
    (cur : Version) (full delta : Option Artifact) (a : Artifact) (as' : List Artifact)
    → or_else (consider cur (full, delta) a).0 (full_artifact_of as')
      ≡ or_else full (full_artifact_of (a ∷ as'))
unfolding consider full_artifact_of
consider-full cur full delta a as' = ground arith

pub scan-full :
    (cur : Version) (b : Option Artifact × Option Artifact) (as' : List Artifact)
    → (scan cur b as').0 ≡ or_else b.0 (full_artifact_of as')
unfolding scan
scan-full cur (full, delta) [] = unfold full_artifact_of in (ground arith)
scan-full cur (full, delta) (a ∷ as') =
    scan-full cur (consider cur (full, delta) a) as' ∙ consider-full cur full delta a as'

pub scan-Best :
    (cur : Version) (b : Option Artifact × Option Artifact) (as' : List Artifact)
    → BestOption cur b.1 as' (scan cur b as').1
unfolding scan
scan-Best cur (full, none) [] = (refl, tt)
scan-Best cur (full, some d) [] = record {
  origin = inl refl;
  least_start = λ s e. ground arith;
  least = tt;
}
scan-Best cur (full, delta) (a ∷ as') =
    let b = consider cur (full, delta) a in
    elim (consider-cases cur full delta a) [
      | inl (e, n) ↦
          Best-skip cur delta a as' (scan cur b as').1 n
            (subst (λ o. BestOption cur o as' (scan cur b as').1) e (scan-Best cur b as'))
      | inr (e, (u, h)) ↦
          Best-take cur delta a as' (scan cur b as').1 u h
            (subst (λ o. BestOption cur o as' (scan cur b as').1) e (scan-Best cur b as'))
    ]
