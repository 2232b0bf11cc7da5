-- ===== src/Update/Quote.antt =====
-- The quoting of the updater's arguments on Windows (backend/internal/update/spawn_quote.go).
pub mod Unquoted
mod Tests
use connective.Prelude.{
  ℕ, zero, suc, ◌+◌, ◌*◌, ◌==◌, ◌&&◌, ◌||◌, not, Bool, true, false, if◌then◌else◌, List, [], ◌∷◌,
  ◌++◌, Text, is_empty, has_char,
}

-- strings.ReplaceAll(s, "'", "''")
unfoldable pub double_quotes : Text → Text
double_quotes [] = []
double_quotes (c ∷ s) = let rest = double_quotes s in if c == 39 then 39 ∷ 39 ∷ rest else c ∷ rest

-- `psQuote`; 39 is the single quote.
unfoldable pub ps_quote : Text → Text
ps_quote s = 39 ∷ double_quotes s ++ 39 ∷ []

unfoldable pub backslashes : ℕ → Text
backslashes zero = []
backslashes (suc n) = b'\\' ∷ backslashes n

-- The loop of `winQuote`, with the backslashes that were met and not yet written; 34 is the double quote.
unfoldable pub quote_from : ℕ → Text → Text
unfolding backslashes
quote_from slashes [] = backslashes (slashes * 2) ++ 34 ∷ []
quote_from slashes (c ∷ s) =
    let more = quote_from (suc slashes) s in
    let rest = quote_from 0 s in
    if c == b'\\'
    then more
    else if c == 34
    then backslashes (slashes * 2 + 1) ++ 34 ∷ rest
    else backslashes slashes ++ c ∷ rest

-- `strings.ContainsAny(s, " \t\"")`
abbrev pub needs_quotes : Text → Bool
needs_quotes s = has_char b' ' s || (has_char 9 s || has_char 34 s)

-- `winQuote`
unfoldable pub win_quote : Text → Text
unfolding quote_from
win_quote s = if not (is_empty s) && not (needs_quotes s) then s else 34 ∷ quote_from 0 s
