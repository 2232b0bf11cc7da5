-- ===== src/Apps.antt =====
-- Application ids for split tunnelling (backend/internal/apps/apps.go): `NormalizeAppID` and
-- `NormalizeList`. Lower case is that of Unicode, which is a parameter; `filepath.Base` is that of a
-- system whose separator is the slash.
pub mod Normalized
pub mod Tests
use connective.Prelude.{
  ℕ, zero, suc, ltb, leb, ◌==◌, ◌&&◌, ◌||◌, Bool, true, false, if◌then◌else◌, List, [], ◌∷◌, Text,
  codes, text_eq, is_empty, trim_space, length, map,
}
use connective.Prelude.Int.{ℤ, pos, negsuc}

abbrev pub slashed : ℕ → ℕ
slashed c = if c == b'\\' then b'/' else c

unfoldable pub drop_slashes : Text → Text
drop_slashes [] = []
drop_slashes (c ∷ s) =
    let rest = drop_slashes s in if is_empty rest && c == b'/' then [] else c ∷ rest

unfoldable pub has_slash : Text → Bool
has_slash [] = false
has_slash (c ∷ s) = c == b'/' || has_slash s

unfoldable pub after_slash : Text → Text
unfolding has_slash
after_slash [] = []
after_slash (c ∷ s) =
    let rest = after_slash s in if has_slash s then rest else if c == b'/' then s else c ∷ s

abbrev pub or_slash : Text → Text
or_slash e = if is_empty e then codes "/" else e

-- filepath.Base
unfoldable pub base : Text → Text
unfolding drop_slashes after_slash
base s = if is_empty s then codes "." else or_slash (after_slash (drop_slashes s))

-- strings.TrimSuffix(s, ".exe")
unfoldable pub trim_exe : Text → Text
trim_exe [] = []
trim_exe (c ∷ s) = let rest = trim_exe s in if text_eq (c ∷ s) (codes ".exe") then [] else c ∷ rest

abbrev pub is_app_char : ℕ → Bool
is_app_char c =
    (leb b'a' c && leb c b'z')
    || ((leb b'0' c && leb c b'9') || (c == b'.' || (c == b'_' || (c == b'-' || c == b'+'))))

unfoldable pub is_app_text : Text → Bool
is_app_text [] = true
is_app_text (c ∷ s) = is_app_char c && is_app_text s

-- The checks on the lower-case name. The code counts bytes: a name that passes the last check is ASCII.
unfoldable pub checked_name : Text → Text
unfolding is_app_text
checked_name s = if ltb 128 (length s) then [] else if is_app_text s then s else []

abbrev pub is_no_name : Text → Bool
is_no_name s = is_empty s || (text_eq s (codes ".") || text_eq s (codes "/"))

unfoldable pub app_id : (Text → Text) → Text → Text
app_id to_lower s =
    let t = trim_space s in
    let b = trim_space (base (map slashed t)) in
    if is_empty t then [] else if is_no_name b then [] else checked_name (trim_exe (to_lower b))

unfoldable pub has_id : Text → List Text → Bool
has_id k [] = false
has_id k (x ∷ xs) = text_eq x k || has_id k xs

-- What the loop of `NormalizeList` still appends, where `room` more ids fit.
unfoldable pub collect : (Text → Text) → ℕ → List Text → List Text → List Text
collect to_lower zero seen names = []
collect to_lower (suc room) seen [] = []
collect to_lower (suc room) seen (s ∷ names) =
    let id = app_id to_lower s in
    let skipped = collect to_lower (suc room) seen names in
    let taken = collect to_lower room (id ∷ seen) names in
    if is_empty id || has_id id seen then skipped else id ∷ taken

abbrev pub list_cap : ℤ → ℕ
list_cap (pos (suc n)) = suc n
list_cap _ = 200

unfoldable pub normalize_list : (Text → Text) → List Text → ℤ → List Text
unfolding collect
normalize_list to_lower names max = collect to_lower (list_cap max) [] names
