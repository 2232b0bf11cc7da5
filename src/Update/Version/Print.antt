-- ===== src/Update/Version/Print.antt =====
-- Printing a version and parsing it back (`String`, `ParseVersion`).
use connective.Prelude.{
  ℕ, ◌≤◌, true, false, ◌==◌, ==_iff, List, [], ◌∷◌, ◌++◌, append-nil, append_assoc, Option, none,
  some, Text, is_empty, trim_space, trim_left, trim_right, trim_right-append, is_space, Lacks,
  split, split_one, split_part, Result, ok, err, ◌≡◌, ◌⊎◌, refl, ap, sym, ◌∙◌, arith, All,
  All-append, Bool-cases, inl, inr,
}
use connective.Update.Version.Number.{
  max_int, IsDigit, format, format-IsDigit, format-ne-nil, atoi-format, atoi-bound,
}
use connective.Update.Version.{
  Version, VersionError, cut_dash, component, components, parse_core, parse_tagged, parse_version,
  print_version,
}

-- A version as `ParseVersion` makes it: three `int`s, and a tag with no white space at its end.
pub record IsCanonical (v : Version) : Type 0 where
  pub major_fits : v.major ≤ max_int
  pub minor_fits : v.minor ≤ max_int
  pub patch_fits : v.patch ≤ max_int
  pub pre_trimmed : trim_right v.pre ≡ v.pre

-- Every part of a printed core consists of such characters.
abbrev IsCore : ℕ → Type 0
IsCore c = (c ≡ b'.') ⊎ IsDigit c

digits-IsCore : (s : Text) → All IsDigit s → All IsCore s
digits-IsCore [] h = tt
digits-IsCore (c ∷ s) h = (inr h.0, digits-IsCore s h.1)

abbrev core_text : Version → Text
core_text v = format v.major ++ (b'.' ∷ (format v.minor ++ (b'.' ∷ format v.patch)))

core_text-IsCore : (v : Version) → All IsCore (core_text v)
core_text-IsCore v =
    All-append IsCore (format v.major) _ (digits-IsCore _ (format-IsDigit v.major)) (
      inl refl,
      All-append IsCore (format v.minor) _ (digits-IsCore _ (format-IsDigit v.minor))
          (inl refl, digits-IsCore _ (format-IsDigit v.patch)),
    )

IsCore-not_dash : (c : ℕ) → IsCore c → (c == b'-') ≡ false
IsCore-not_dash c h = ground arith

IsCore-not_space : (c : ℕ) → IsCore c → is_space c ≡ false
unfolding is_space
IsCore-not_space c h = ground arith

cut_dash_core : (s : Text) → All IsCore s → cut_dash s ≡ (s, none)
unfolding cut_dash
cut_dash_core [] h = refl
cut_dash_core (c ∷ s) h = rw (cut_dash_core s h.1, IsCore-not_dash c h.0)

cut_dash_tag : (s pre : Text) → All IsCore s → cut_dash (s ++ b'-' ∷ pre) ≡ (s, some pre)
unfolding cut_dash
cut_dash_tag [] pre h = refl
cut_dash_tag (c ∷ s) pre h = rw (cut_dash_tag s pre h.1, IsCore-not_dash c h.0)

digits-Lacks : (s : Text) → All IsDigit s → Lacks b'.' s
digits-Lacks [] h = tt
digits-Lacks (c ∷ s) h = (ground arith, digits-Lacks s h.1)

component-format : (n : ℕ) → n ≤ max_int → component (format n) ≡ ok n
unfolding component
component-format n h = rw (format-ne-nil n, atoi-format n h)

parse_core-print : (v : Version) → IsCanonical v → parse_core (core_text v) v.pre ≡ ok v
unfolding parse_core components
parse_core-print v c = rw (
  split_part b'.' (format v.major) (format v.minor ++ (b'.' ∷ format v.patch))
      (digits-Lacks _ (format-IsDigit v.major)),
  split_part b'.' (format v.minor) (format v.patch) (digits-Lacks _ (format-IsDigit v.minor)),
  split_one b'.' (format v.patch) (digits-Lacks _ (format-IsDigit v.patch)),
  component-format v.major c.major_fits,
  component-format v.minor c.minor_fits,
  component-format v.patch c.patch_fits,
)

trim_right_core : (s : Text) → All IsCore s → trim_right s ≡ s
unfolding trim_right
trim_right_core [] h = refl
trim_right_core (c ∷ s) h = rw (trim_right_core s h.1, IsCore-not_space c h.0)

trim_left_core :
    (s : Text) → is_empty s ≡ false → All IsCore s → (t : Text) → trim_left (s ++ t) ≡ s ++ t
unfolding trim_left
trim_left_core [] e h t = cc
trim_left_core (c ∷ s) e h t = rw (IsCore-not_space c h.0)

ne_nil_append : (s t : Text) → is_empty s ≡ false → is_empty (s ++ t) ≡ false
ne_nil_append [] t e = cc
ne_nil_append (c ∷ s) t e = refl

core_text-ne-nil : (v : Version) → is_empty (core_text v) ≡ false
core_text-ne-nil v = ne_nil_append (format v.major) _ (format-ne-nil v.major)

trim_space_core :
    (v : Version) (t : Text)
    → trim_right (core_text v ++ t) ≡ core_text v ++ t
    → trim_space (core_text v ++ t) ≡ core_text v ++ t
unfolding trim_space
trim_space_core v t h =
    rw (trim_left_core (core_text v) (core_text-ne-nil v) (core_text-IsCore v) t, h)

trim_right_tag : (v : Version) → IsCanonical v → trim_right (b'-' ∷ v.pre) ≡ b'-' ∷ v.pre
unfolding trim_right
trim_right_tag v c = rw c.pre_trimmed

parse_tagged_version :
    (t core pre : Text) (tag : Option Text) (v : Version)
    → trim_space t ≡ t
    → is_empty t ≡ false
    → cut_dash t ≡ (core, tag)
    → parse_tagged core tag ≡ ok v
    → parse_version t ≡ ok v
unfolding parse_version
parse_tagged_version t core pre tag v trimmed ne cut h = rw (trimmed, cut, ne, h)

-- A version as `ParseVersion` makes it is read back from its print, with and without a tag.
pub parse-print : (v : Version) → IsCanonical v → parse_version (print_version v) ≡ ok v
unfolding print_version
parse-print v c = elim (text-cases v.pre) [
  | inl e ↦ rw e (
      parse_tagged_version (core_text v) (core_text v) [] none v
        (ap trim_space (sym (append-nil _))
          ∙ (trim_space_core v [] (rw append-nil (trim_right_core _ (core_text-IsCore v)))
              ∙ append-nil _))
        (core_text-ne-nil v) (cut_dash_core _ (core_text-IsCore v))
        (unfold parse_tagged in
          (ap (parse_core (core_text v)) (sym (empty_text v.pre e)) ∙ parse_core-print v c)))
  | inr e ↦ rw e (
      parse_tagged_version (core_text v ++ b'-' ∷ v.pre) (core_text v) [] (some v.pre) v
        (trim_space_core v _
          (trim_right-append (core_text v) (b'-' ∷ v.pre) refl (trim_right_tag v c)))
        (ne_nil_append (core_text v) _ (core_text-ne-nil v))
        (cut_dash_tag _ v.pre (core_text-IsCore v))
        (unfold parse_tagged in (rw e (parse_core-print v c))))
]
  where
    text-cases : (s : Text) → (is_empty s ≡ true) ⊎ (is_empty s ≡ false)
    text-cases s = Bool-cases (is_empty s)

    empty_text : (s : Text) → is_empty s ≡ true → s ≡ []
    empty_text [] e = refl
    empty_text (c ∷ s) e = cc

component-bound : (p : Text) (n : ℕ) → component p ≡ ok n → n ≤ max_int
unfolding component
component-bound p n h = ground (arith, atoi-bound p n)

abbrev Fits : ℕ × ℕ × ℕ → Type 0
Fits (x, y, z) = (x ≤ max_int) × (y ≤ max_int) × (z ≤ max_int)

components-Fits : (ps : List Text) (t : ℕ × ℕ × ℕ) → components ps ≡ ok t → Fits t
unfolding components
components-Fits [] t h = cc
components-Fits (a ∷ []) t h = ground (arith, component-bound a t.0)
components-Fits (a ∷ b ∷ []) t h = ground (arith, component-bound a t.0, component-bound b t.1)
components-Fits (a ∷ b ∷ c ∷ []) t h =
    ground (arith, component-bound a t.0, component-bound b t.1, component-bound c t.2)
components-Fits (a ∷ b ∷ c ∷ d ∷ r) t h = cc

parse_core-IsCanonical :
    (core pre : Text) (v : Version)
    → trim_right pre ≡ pre
    → parse_core core pre ≡ ok v
    → IsCanonical v
unfolding parse_core
parse_core-IsCanonical core pre v p h = elim_core (components (split b'.' core)) refl
  where
    elim_core :
        (r : Result VersionError (ℕ × ℕ × ℕ)) → components (split b'.' core) ≡ r → IsCanonical v
    elim_core (ok (x, y, z)) e = ground (arith, components-Fits (split b'.' core) (x, y, z))
    elim_core (err x) e = ground arith

cut_dash-parts : (t pre : Text) → (cut_dash t).1 ≡ some pre → t ≡ (cut_dash t).0 ++ b'-' ∷ pre
unfolding cut_dash
cut_dash-parts [] pre h = cc
cut_dash-parts (c ∷ t) pre h = elim (Bool-cases (c == b'-')) [
  | inl e ↦ ground (arith, (==_iff c b'-').0 e)
  | inr e ↦ rw e (ap (λ s. c ∷ s) (cut_dash-parts t pre (rw e at h)))
]

trim_right_suffix : (s t : Text) → trim_right (s ++ t) ≡ s ++ t → trim_right t ≡ t
unfolding trim_right
trim_right_suffix [] t h = h
trim_right_suffix (c ∷ s) t h = trim_right_suffix s t (ground arith)

trim_right_idem : (s : Text) → trim_right (trim_right s) ≡ trim_right s
unfolding trim_right
trim_right_idem [] = refl
trim_right_idem (c ∷ s) = ground (arith, trim_right_idem s)

tag_trimmed : (s pre : Text) → (cut_dash (trim_space s)).1 ≡ some pre → trim_right pre ≡ pre
tag_trimmed s pre h = trim_right_suffix ((cut_dash (trim_space s)).0 ++ b'-' ∷ []) pre (
    rw append_assoc (
      rw (← cut_dash-parts (trim_space s) pre h)
        (unfold trim_space in (trim_right_idem (trim_left s)))))

tagged-IsCanonical :
    (core : Text) (tag : Option Text) (v : Version)
    → ((pre : Text) → tag ≡ some pre → trim_right pre ≡ pre)
    → parse_tagged core tag ≡ ok v
    → IsCanonical v
unfolding parse_tagged
tagged-IsCanonical core none v p h = parse_core-IsCanonical core [] v (unfold trim_right in refl) h
tagged-IsCanonical core (some pre) v p h = elim (Bool-cases (is_empty pre)) [
  | inl e ↦ cc (rw e at h)
  | inr e ↦ parse_core-IsCanonical core pre v (p pre refl) (rw e at h)
]

-- What `ParseVersion` returns is canonical: each component fits an `int`, and the tag does not end in
-- white space.
pub parse-IsCanonical : (s : Text) (v : Version) → parse_version s ≡ ok v → IsCanonical v
unfolding parse_version
parse-IsCanonical s v h = elim (Bool-cases (is_empty (trim_space s))) [
  | inl e ↦ cc (rw e at h)
  | inr e ↦
      tagged-IsCanonical (cut_dash (trim_space s)).0 (cut_dash (trim_space s)).1 v (tag_trimmed s)
        (rw e at h)
]

-- The print of a version that was parsed is parsed to the same version, so the canonical form may
-- stand for the text that was given ("1.2" and "1.2.0" are then one text).
pub reparse :
    (s : Text) (v : Version) → parse_version s ≡ ok v → parse_version (print_version v) ≡ ok v
reparse s v h = parse-print v (parse-IsCanonical s v h)
