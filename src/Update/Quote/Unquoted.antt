-- ===== src/Update/Quote/Unquoted.antt =====
-- A quoted argument is read as the argument.
use connective.Prelude.{
  not-true, ||_false, ℕ, zero, suc, ◌+◌, ◌*◌, ◌/◌, ◌%◌, ◌==◌, ◌&&◌, ◌||◌, not, true, false,
  if◌then◌else◌, [], ◌∷◌, ◌++◌, append_assoc, append-nil, Option, none, some, Text, is_empty,
  has_char, ◌≡◌, inl, inr, refl, sym, ap, ◌∙◌, Bool-cases, ==_iff, arith,
}
use connective.Update.Quote.{backslashes, quote_from, needs_quotes, win_quote}

abbrev pub before_rest : Text → Option (Text × Text) → Option (Text × Text)
before_rest p none = none
before_rest p (some (a, r)) = some (p ++ a, r)

-- Reading inside double quotes by the rules that the comment on `winQuote` names, after `n` backslashes:
-- an even number before a quote stands for half of them and the quote closes, an odd number stands for
-- half of them and the quote is literal, and all else is literal. The argument, and what follows.
unfoldable pub read_inside : ℕ → Text → Option (Text × Text)
unfolding backslashes
read_inside n [] = none
read_inside n (c ∷ s) =
    let more = read_inside (suc n) s in
    let rest = read_inside 0 s in
    if c == b'\\'
    then more
    else if c == 34
    then (if n % 2 == 0
        then some (backslashes (n / 2), s)
        else before_rest (backslashes (n / 2) ++ 34 ∷ []) rest)
    else before_rest (backslashes n ++ c ∷ []) rest

-- Reading up to white space.
unfoldable pub read_plain : Text → Text × Text
read_plain [] = ([], [])
read_plain (c ∷ s) =
    let (a, r) = read_plain s in if c == b' ' || c == 9 then ([], c ∷ s) else (c ∷ a, r)

-- Reading the next argument of a command line.
unfoldable pub read_argument : Text → Option (Text × Text)
unfolding read_inside read_plain
read_argument [] = none
read_argument (c ∷ s) =
    let inside = read_inside 0 s in if c == 34 then inside else some (read_plain (c ∷ s))

read-backslashes : (m n : ℕ) (s : Text) → read_inside n (backslashes m ++ s) ≡ read_inside (n + m) s
unfolding read_inside
read-backslashes zero n s = ap (λ k. read_inside k s) (omega arith)
read-backslashes (suc m) n s =
    read-backslashes m (suc n) s ∙ ap (λ k. read_inside k s) (omega arith)

backslashes-next : (k : ℕ) (s : Text) → backslashes (suc k) ++ s ≡ backslashes k ++ b'\\' ∷ s
unfolding backslashes
backslashes-next zero s = refl
backslashes-next (suc k) s = ap (λ x. b'\\' ∷ x) (backslashes-next k s)

half_even : (k : ℕ) → (k * 2 / 2 ≡ k) × (((k * 2 % 2) == 0) ≡ true)
half_even k = (omega arith, (==_iff (k * 2 % 2) 0).1 (omega arith))

half_odd : (k : ℕ) → ((k * 2 + 1) / 2 ≡ k) × ((((k * 2 + 1) % 2) == 0) ≡ false)
half_odd k = (omega arith, ground arith)

read-closing : (k : ℕ) (r : Text) → read_inside (k * 2) (34 ∷ r) ≡ some (backslashes k, r)
unfolding read_inside
read-closing k r = let (h, e) = half_even k in rw (e, h) refl

read-quote :
    (k : ℕ) (w : Text)
    → read_inside (k * 2 + 1) (34 ∷ w) ≡ before_rest (backslashes k ++ 34 ∷ []) (read_inside 0 w)
unfolding read_inside
read-quote k w = let (h, e) = half_odd k in rw (e, h) refl

read-char :
    (c k : ℕ) (w : Text)
    → (c == b'\\') ≡ false
    → (c == 34) ≡ false
    → read_inside k (c ∷ w) ≡ before_rest (backslashes k ++ c ∷ []) (read_inside 0 w)
unfolding read_inside
read-char c k w e q = rw (e, q) refl

-- A character behind backslashes, and then the rest of the argument.
behind :
    (k m c : ℕ) (s w r : Text)
    → read_inside m (c ∷ w) ≡ before_rest (backslashes k ++ c ∷ []) (read_inside 0 w)
    → read_inside 0 w ≡ some (s, r)
    → read_inside 0 (backslashes m ++ c ∷ w) ≡ some (backslashes k ++ c ∷ s, r)
behind k m c s w r h ih =
    read-backslashes m 0 (c ∷ w)
    ∙ ap (λ n. read_inside n (c ∷ w)) (omega arith)
    ∙ h
    ∙ ap (before_rest (backslashes k ++ c ∷ [])) ih
    ∙ ap (λ x. some (x, r)) (append_assoc (backslashes k) (c ∷ []) s)

-- What the loop writes is read as the backslashes that were met and the rest of the argument.
read_inside-quote_from :
    (s : Text) (k : ℕ) (r : Text)
    → read_inside 0 (quote_from k s ++ r) ≡ some (backslashes k ++ s, r)
unfolding quote_from
read_inside-quote_from [] k r =
    ap (λ x. read_inside 0 x) (append_assoc (backslashes (k * 2)) (34 ∷ []) r)
    ∙ read-backslashes (k * 2) 0 (34 ∷ r)
    ∙ ap (λ n. read_inside n (34 ∷ r)) (omega arith)
    ∙ read-closing k r
    ∙ ap (λ x. some (x, r)) (sym (append-nil (backslashes k)))
read_inside-quote_from (c ∷ s) k r = elim (Bool-cases (c == b'\\')) [
  | inl e ↦ rw e (
      read_inside-quote_from s (suc k) r
      ∙ ap (λ x. some (x, r))
          (backslashes-next k s ∙ ap (λ x. backslashes k ++ x ∷ s) (sym ((==_iff c b'\\').0 e))))
  | inr e ↦ elim (Bool-cases (c == 34)) [
    | inl q ↦
        let quote = (==_iff c 34).0 q in
        rw (e, q)
          (ap (λ x. read_inside 0 x)
              (append_assoc (backslashes (k * 2 + 1)) (34 ∷ quote_from 0 s) r)
            ∙ behind k (k * 2 + 1) 34 s (quote_from 0 s ++ r) r (read-quote k (quote_from 0 s ++ r))
                (read_inside-quote_from s 0 r)
            ∙ ap (λ x. some (backslashes k ++ x ∷ s, r)) (sym quote))
    | inr q ↦
        rw (e, q)
          (ap (λ x. read_inside 0 x) (append_assoc (backslashes k) (c ∷ quote_from 0 s) r)
            ∙ behind k k c s (quote_from 0 s ++ r) r (read-char c k (quote_from 0 s ++ r) e q)
                (read_inside-quote_from s 0 r))
  ]
]

read_plain-all :
    (s r : Text)
    → has_char b' ' s ≡ false
    → has_char 9 s ≡ false
    → read_plain (s ++ b' ' ∷ r) ≡ (s, b' ' ∷ r)
unfolding read_plain has_char
read_plain-all [] r a b = refl
read_plain-all (c ∷ s) r a b =
    let (c1, a1) = ||_false (c == b' ') (has_char b' ' s) a in
    let (c2, b1) = ||_false (c == 9) (has_char 9 s) b in rw (read_plain-all s r a1 b1, c1, c2) refl

read-unquoted :
    (s r : Text)
    → (not (is_empty s) && not (needs_quotes s)) ≡ true
    → read_argument (s ++ b' ' ∷ r) ≡ some (s, b' ' ∷ r)
unfolding read_argument has_char read_plain
read-unquoted [] r h = cc
read-unquoted (c ∷ s) r h =
    let n = not-true (needs_quotes (c ∷ s)) h in
    let (sp, more) = ||_false (has_char b' ' (c ∷ s)) _ n in
    let (tab, quote) = ||_false (has_char 9 (c ∷ s)) (has_char 34 (c ∷ s)) more in
    let (first, _) = ||_false (c == 34) (has_char 34 s) quote in
    rw first (ap (λ x. some x) (read_plain-all (c ∷ s) r sp tab))

-- An argument that `winQuote` quotes, when a space follows it on the command line, is read as the argument
-- itself, and the reading ends at that space.
pub read_argument-win_quote :
    (s r : Text) → read_argument (win_quote s ++ b' ' ∷ r) ≡ some (s, b' ' ∷ r)
unfolding win_quote read_argument backslashes
read_argument-win_quote s r = elim (Bool-cases (not (is_empty s) && not (needs_quotes s))) [
  | inl e ↦ rw e (read-unquoted s r e)
  | inr e ↦ rw e (read_inside-quote_from s 0 (b' ' ∷ r))
]
