-- ===== src/Update/Version.antt =====
-- Versions (backend/internal/update/version.go): parsing, printing, comparing, and the policy for
-- an acceptable update. Text is a list of code points; a component is a Go `int` of 64 bits.
pub mod Number
pub mod Order
pub mod Print
pub mod Policy
mod Tests
use connective.Prelude.{
  ℕ, zero, suc, ◌+◌, ◌-◌, ◌*◌, ◌^◌, Bool, true, false, not, ◌&&◌, ◌||◌, leb, ltb, ◌==◌,
  if◌then◌else◌, List, [], ◌∷◌, ◌++◌, Option, none, some, Text, codes, text_eq, text_compare,
  is_empty, trim_space, split, length, Result, ok, err, ◌>>=◌, ◌>>◌, guard, compare, Ordering,
}
use connective.Update.Version.Number.{atoi, format}
use connective.Prelude.Int.{ℤ, pos, negsuc}

pub record Version : Type 0 where
  pub major : ℕ
  pub minor : ℕ
  pub patch : ℕ
  pub pre : Text

pub data VersionError : Type 0 where
  empty_version bad_version : VersionError

-- strings.Index(s, "-"): the text before the first dash, and what follows it.
unfoldable pub cut_dash : Text → Text × Option Text
cut_dash [] = ([], none)
cut_dash (c ∷ s) =
    let (before, after) = cut_dash s in if c == b'-' then ([], some s) else (c ∷ before, after)

-- One round of the loop over the parts: a part must be a non-negative number.
unfoldable pub component : Text → Result VersionError ℕ
component p = if is_empty p then err bad_version else elim (atoi p) [
  | none ↦ err bad_version
  | some (pos n) ↦ ok n
  | some (negsuc n) ↦ err bad_version
]

-- `nums`, in which the missing parts stay 0. There are at most three parts.
unfoldable pub components : List Text → Result VersionError (ℕ × ℕ × ℕ)
components (a ∷ []) = do x ← component a; ok (x, 0, 0)
components (a ∷ b ∷ []) = do x ← component a; y ← component b; ok (x, y, 0)
components (a ∷ b ∷ c ∷ []) = do x ← component a; y ← component b; z ← component c; ok (x, y, z)
components _ = err bad_version

unfoldable pub parse_core : Text → Text → Result VersionError Version
unfolding components component
parse_core core pre = do
  (x, y, z) ← components (split b'.' core)
  ok (record { major = x; minor = y; patch = z; pre = pre })

-- A dash with nothing behind it is an error.
unfoldable pub parse_tagged : Text → Option Text → Result VersionError Version
unfolding parse_core
parse_tagged core none = parse_core core []
parse_tagged core (some pre) = if is_empty pre then err bad_version else parse_core core pre

unfoldable pub parse_version : Text → Result VersionError Version
unfolding cut_dash parse_tagged
parse_version s =
    let t = trim_space s in
    let (core, tag) = cut_dash t in if is_empty t then err empty_version else parse_tagged core tag

-- `cmpInt`; -1, 0 and +1 are `lt`, `eq` and `gt`.
abbrev pub compare_int : ℕ → ℕ → Ordering
compare_int a b = if ltb a b then Ordering.lt else if ltb b a then Ordering.gt else Ordering.eq

-- The last `switch` of `Compare`.
unfoldable pub compare_pre : Text → Text → Ordering
compare_pre p q =
    if text_eq p q
    then Ordering.eq
    else if is_empty p
    then Ordering.gt
    else if is_empty q
    then Ordering.lt
    else text_compare p q

unfoldable pub compare_version : Version → Version → Ordering
compare_version v o =
    if not (v.major == o.major)
    then compare_int v.major o.major
    else if not (v.minor == o.minor)
    then compare_int v.minor o.minor
    else if not (v.patch == o.patch)
    then compare_int v.patch o.patch
    else compare_pre v.pre o.pre

-- `String`: "%d.%d.%d" and the tag.
unfoldable pub print_version : Version → Text
print_version v =
    let s = format v.major ++ (b'.' ∷ (format v.minor ++ (b'.' ∷ format v.patch))) in
    if is_empty v.pre then s else s ++ b'-' ∷ v.pre

abbrev pub is_gt : Ordering → Bool
is_gt Ordering.gt = true
is_gt _ = false

abbrev pub is_lt : Ordering → Bool
is_lt Ordering.lt = true
is_lt _ = false

unfoldable pub is_newer_than : Text → Text → Result VersionError Bool
is_newer_than current candidate = do
  c ← parse_version current
  n ← parse_version candidate
  ok (is_gt (compare_version n c))

pub data PolicyError : Type 0 where
  bad_current bad_target bad_minimum : VersionError → PolicyError
  not_newer below_minimum : Version → Version → PolicyError

-- `fmt.Errorf("…: %w", err)`
abbrev pub wrap {ℓ} : {A : Type ℓ} {E F : Type 0} → (E → F) → Result E A → Result F A
wrap f (ok a) = ok a
wrap f (err e) = err (f e)

unfoldable pub check_minimum : Version → Text → Result PolicyError (Unit {0})
check_minimum c minimum = if is_empty minimum then ok tt else (do
  m ← wrap bad_minimum (parse_version minimum)
  guard (not (is_lt (compare_version c m))) (below_minimum c m))

unfoldable pub acceptable : Text → Text → Text → Result PolicyError (Unit {0})
unfolding check_minimum
acceptable current target minimum = do
  c ← wrap bad_current (parse_version current)
  t ← wrap bad_target (parse_version target)
  guard (is_gt (compare_version t c)) (not_newer t c)
  check_minimum c minimum

-- `ValidChannel`
unfoldable pub valid_channel : Text → Bool
valid_channel c =
    text_eq c (codes "stable") || (text_eq c (codes "beta") || text_eq c (codes "dev"))
