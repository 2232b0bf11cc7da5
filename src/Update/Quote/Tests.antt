-- ===== src/Update/Quote/Tests.antt =====
-- An argument quoted.
use connective.Prelude.{has_char, Text, codes, ◌++◌, ◌∷◌, some, ◌≡◌, refl}
use connective.Update.Quote.{win_quote, quote_from, ps_quote, double_quotes}
use connective.Update.Quote.Unquoted.{read_argument, read_argument-win_quote}

abbrev root : Text
root = codes "C:\\Program Files\\"

quoted : win_quote root ≡ codes "\"C:\\Program Files\\\\\""
unfolding win_quote quote_from has_char
quoted = refl

doubled : ps_quote (codes "it's") ≡ codes "'it''s'"
unfolding ps_quote double_quotes
doubled = refl

read_argument-win_quote_example :
    read_argument (win_quote root ++ b' ' ∷ codes "--version")
    ≡ some (root, b' ' ∷ codes "--version")
read_argument-win_quote_example = read_argument-win_quote root (codes "--version")
