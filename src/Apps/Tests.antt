-- ===== src/Apps/Tests.antt =====
-- Runs of the normalization, and the theorems at a list of names.
use connective.Prelude.{
  ◌≤◌, ◌≡◌, refl, List, [], ◌∷◌, Text, codes, text_eq, trim_space, length, All, map, leb, ◌&&◌,
  if◌then◌else◌, ◌+◌,
}
use connective.Prelude.Int.{pos}
use connective.Apps.{
  app_id, base, drop_slashes, has_slash, after_slash, trim_exe, checked_name, is_app_text, has_id,
  collect, list_cap, normalize_list,
}
use connective.Apps.Normalized.{IsAppId, Fresh, normalize_list-lem}

-- Lower case, of ASCII alone.
abbrev pub ascii_lower : Text → Text
ascii_lower s = map (λ c. if leb b'A' c && leb c b'Z' then c + 32 else c) s

abbrev names : List Text
names = codes "C:\\Apps\\Firefox.exe" ∷ codes "firefox" ∷ codes " " ∷ codes "/usr/bin/curl/" ∷ []

normalizes : normalize_list ascii_lower names (pos 200) ≡ codes "firefox" ∷ codes "curl" ∷ []
unfolding normalize_list collect app_id base drop_slashes has_slash after_slash trim_exe
    checked_name is_app_text has_id trim_space text_eq
normalizes = refl

-- A second normalization can drop an id of the first.
dot_name : app_id ascii_lower (codes "..exe") ≡ codes "."
unfolding app_id base drop_slashes has_slash after_slash trim_exe checked_name is_app_text
    trim_space text_eq
dot_name = refl

dot_again : app_id ascii_lower (codes ".") ≡ []
unfolding app_id base drop_slashes has_slash after_slash trim_exe checked_name is_app_text
    trim_space text_eq
dot_again = refl

normalize_list-lem_example :
    (length (normalize_list ascii_lower names (pos 1)) ≤ list_cap (pos 1))
    × All IsAppId (normalize_list ascii_lower names (pos 1))
    × Fresh [] (normalize_list ascii_lower names (pos 1))
normalize_list-lem_example = normalize_list-lem ascii_lower names (pos 1)
