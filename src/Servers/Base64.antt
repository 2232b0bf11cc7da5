-- ===== src/Servers/Base64.antt =====
-- Base64 as encoding/base64 reads and writes it, and `decodeBase64URL` and `padBase64` of
-- backend/internal/servers/parse.go.
use connective.Prelude.{
  ℕ, zero, suc, ◌+◌, ◌-◌, ◌*◌, ◌/◌, ◌%◌, ◌≤◌, leb, ◌==◌, ◌&&◌, Bool, true, false, if◌then◌else◌, [],
  ◌∷◌, ◌++◌, Option, none, some, Text, is_empty, trim_space, trim_left, trim_right, length, keep,
  ◌≡◌, ◌⊎◌, inl, inr, Bool-cases, refl, arith,
}

-- The two characters of an alphabet behind the letters and digits.
pub record Alphabet : Type 0 where
  pub char_62 : ℕ
  pub char_63 : ℕ

abbrev pub std_alphabet : Alphabet
std_alphabet = record { char_62 = b'+'; char_63 = b'/' }

abbrev pub url_alphabet : Alphabet
url_alphabet = record { char_62 = b'-'; char_63 = b'_' }

unfoldable pub char_value : Alphabet → ℕ → Option ℕ
char_value a c =
    if leb b'A' c && leb c b'Z'
    then some (c - b'A')
    else if leb b'a' c && leb c b'z'
    then some (c - b'a' + 26)
    else if leb b'0' c && leb c b'9'
    then some (c - b'0' + 52)
    else if c == a.char_62
    then some 62
    else if c == a.char_63
    then some 63
    else none

abbrev pub join1 : Option ℕ → Option ℕ → Option Text
join1 (some a) (some b) = some ((a * 4 + b / 16) ∷ [])
join1 _ _ = none

abbrev pub join2 : Option ℕ → Option ℕ → Option ℕ → Option Text
join2 (some a) (some b) (some c) = some ((a * 4 + b / 16) ∷ (b % 16 * 16 + c / 4) ∷ [])
join2 _ _ _ = none

abbrev pub join3 : Option ℕ → Option ℕ → Option ℕ → Option ℕ → Option Text → Option Text
join3 (some a) (some b) (some c) (some d) (some t) =
    some ((a * 4 + b / 16) ∷ (b % 16 * 16 + c / 4) ∷ (c % 4 * 64 + d) ∷ t)
join3 _ _ _ _ _ = none

-- Quanta of four characters; the padding stands at the end.
unfoldable pub decode_quanta : Alphabet → Text → Option Text
decode_quanta al [] = some []
decode_quanta al (a ∷ b ∷ c ∷ d ∷ s) =
    let rest = decode_quanta al s in
    let v = char_value al in
    if c == b'='
    then (if d == b'=' && is_empty s then join1 (v a) (v b) else none)
    else if d == b'='
    then (if is_empty s then join2 (v a) (v b) (v c) else none)
    else join3 (v a) (v b) (v c) (v d) rest
decode_quanta al _ = none

abbrev pub is_not_newline : ℕ → Bool
is_not_newline c = if c == 10 then false else if c == 13 then false else true

-- Encoding.DecodeString: newlines are passed over.
unfoldable pub decode : Alphabet → Text → Option Text
unfolding decode_quanta
decode al s = decode_quanta al (keep is_not_newline s)

-- strings.Repeat("=", n)
unfoldable pub pads : ℕ → Text
pads zero = []
pads (suc n) = b'=' ∷ pads n

-- `padBase64`, and `pad` of subscriptions.go.
unfoldable pub pad : Text → Text
unfolding pads
pad s = let m = length s % 4 in if m == 0 then s else s ++ pads (4 - m)

abbrev pub or_decode : Option Text → Option Text → Option Text
or_decode (some t) o = some t
or_decode none o = o

-- `decodeBase64URL`: the alphabet of URLs first, then the standard one.
unfoldable pub decode_either : Text → Option Text
unfolding decode pad
decode_either s =
    let padded = pad (trim_space s) in
    or_decode (decode url_alphabet padded) (decode std_alphabet padded)

abbrev pub is_symbol : ℕ → Bool
is_symbol c = if c == b'=' then false else true

-- How many characters are no padding.
unfoldable pub symbols : Text → ℕ
symbols [] = 0
symbols (c ∷ s) = let n = symbols s in if is_symbol c then suc n else n

-- The padding character is not in the alphabet.
abbrev pub NoPad : Alphabet → Type 0
NoPad al = ((al.char_62 == b'=') ≡ false) × ((al.char_63 == b'=') ≡ false)

char_value-symbol :
    (al : Alphabet) (c v : ℕ) → NoPad al → char_value al c ≡ some v → is_symbol c ≡ true
unfolding char_value
char_value-symbol al c v n h = ground (arith, n.0, n.1)

join1-some :
    (a b : Option ℕ) (d : Text)
    → join1 a b ≡ some d
    → (x : ℕ) × (y : ℕ) × (a ≡ some x) × (b ≡ some y) × (length d ≡ 1)
join1-some none b d h = cc
join1-some (some x) none d h = cc
join1-some (some x) (some y) d h = (x, y, refl, refl, ground arith)

join2-some :
    (a b c : Option ℕ) (d : Text)
    → join2 a b c ≡ some d
    → (x : ℕ) × (y : ℕ) × (z : ℕ) × (a ≡ some x) × (b ≡ some y) × (c ≡ some z) × (length d ≡ 2)
join2-some none b c d h = cc
join2-some (some x) none c d h = cc
join2-some (some x) (some y) none d h = cc
join2-some (some x) (some y) (some z) d h = (x, y, z, refl, refl, refl, ground arith)

join3-some :
    (a b c e : Option ℕ) (r : Option Text) (d : Text)
    → join3 a b c e r ≡ some d
    → (x : ℕ) × (y : ℕ) × (z : ℕ) × (w : ℕ) × (t : Text) × (a ≡ some x)
      × (b ≡ some y)
      × (c ≡ some z)
      × (e ≡ some w)
      × (r ≡ some t)
      × (length d ≡ 3 + length t)
join3-some none b c e r d h = cc
join3-some (some x) none c e r d h = cc
join3-some (some x) (some y) none e r d h = cc
join3-some (some x) (some y) (some z) none r d h = cc
join3-some (some x) (some y) (some z) (some w) none d h = cc
join3-some (some x) (some y) (some z) (some w) (some t) d h =
    (x, y, z, w, t, refl, refl, refl, refl, refl, ground arith)

-- Four characters give at most three bytes.
decode_quanta-bounded :
    (al : Alphabet) (t d : Text)
    → NoPad al
    → decode_quanta al t ≡ some d
    → length d * 4 ≤ symbols t * 3
unfolding decode_quanta symbols
decode_quanta-bounded al [] d n h = ground arith
decode_quanta-bounded al (a ∷ []) d n h = cc
decode_quanta-bounded al (a ∷ b ∷ []) d n h = cc
decode_quanta-bounded al (a ∷ b ∷ c ∷ []) d n h = cc
decode_quanta-bounded al (a ∷ b ∷ c ∷ e ∷ s) d n h = elim (Bool-cases (c == b'=')) [
  | inl p ↦ elim (Bool-cases (e == b'=' && is_empty s)) [
    | inl q ↦
        let (x, y, ax, by', l) =
          join1-some (char_value al a) (char_value al b) d (rw (p, q) at h) in
        ground (arith, char_value-symbol al a x n ax, char_value-symbol al b y n by', l)
    | inr q ↦ cc (rw (p, q) at h)
  ]
  | inr p ↦ elim (Bool-cases (e == b'=')) [
    | inl q ↦ elim (Bool-cases (is_empty s)) [
      | inl r ↦
          let (x, y, z, ax, by', cz, l) =
            join2-some (char_value al a) (char_value al b) (char_value al c) d
              (rw (p, q, r) at h) in
          ground (
            arith,
            char_value-symbol al a x n ax,
            char_value-symbol al b y n by',
            char_value-symbol al c z n cz,
            l,
          )
      | inr r ↦ cc (rw (p, q, r) at h)
    ]
    | inr q ↦
        let (x, y, z, w, t, ax, by', cz, ew, rt, l) =
          join3-some (char_value al a) (char_value al b) (char_value al c) (char_value al e)
            (decode_quanta al s) d (rw (p, q) at h) in
        ground (
          arith,
          char_value-symbol al a x n ax,
          char_value-symbol al b y n by',
          char_value-symbol al c z n cz,
          char_value-symbol al e w n ew,
          decode_quanta-bounded al s t n rt,
          l,
        )
  ]
]

symbols-append : (s t : Text) → symbols (s ++ t) ≡ symbols s + symbols t
unfolding symbols
symbols-append [] t = omega arith
symbols-append (c ∷ s) t = ground (arith, symbols-append s t)

symbols-pads : (n : ℕ) → symbols (pads n) ≡ 0
unfolding symbols pads
symbols-pads zero = refl
symbols-pads (suc n) = ground (arith, symbols-pads n)

symbols-keep : (p : ℕ → Bool) (s : Text) → symbols (keep p s) ≤ symbols s
unfolding symbols
symbols-keep p [] = omega arith
symbols-keep p (c ∷ s) = ground (arith, symbols-keep p s)

symbols-length : (s : Text) → symbols s ≤ length s
unfolding symbols
symbols-length [] = omega arith
symbols-length (c ∷ s) = ground (arith, symbols-length s)

symbols-pad : (s : Text) → symbols (pad s) ≤ length s
unfolding pad
symbols-pad s = ground (
  arith,
  symbols-length s,
  symbols-append s (pads (4 - length s % 4)),
  symbols-pads (4 - length s % 4),
)

length-trim_left : (s : Text) → length (trim_left s) ≤ length s
unfolding trim_left
length-trim_left [] = omega arith
length-trim_left (c ∷ s) = ground (arith, length-trim_left s)

length-trim_right : (s : Text) → length (trim_right s) ≤ length s
unfolding trim_right
length-trim_right [] = omega arith
length-trim_right (c ∷ s) = ground (arith, length-trim_right s)

length-trim_space : (s : Text) → length (trim_space s) ≤ length s
unfolding trim_space
length-trim_space s = omega (arith, length-trim_left s, length-trim_right (trim_left s))

decode-bounded :
    (al : Alphabet) (s d : Text)
    → NoPad al
    → decode al (pad s) ≡ some d
    → length d * 4 ≤ length s * 3
unfolding decode
decode-bounded al s d n h = omega (
  arith,
  decode_quanta-bounded al (keep is_not_newline (pad s)) d n h,
  symbols-keep is_not_newline (pad s),
  symbols-pad s,
)

or_decode-cases :
    (o p : Option Text) (d : Text) → or_decode o p ≡ some d → (o ≡ some d) ⊎ (p ≡ some d)
or_decode-cases none p d h = inr h
or_decode-cases (some t) p d h = inl h

-- What is decoded is shorter by a quarter at least.
pub decode_either-bounded : (s d : Text) → decode_either s ≡ some d → length d * 4 ≤ length s * 3
unfolding decode_either
decode_either-bounded s d h =
    let t = trim_space s in
    elim (or_decode-cases (decode url_alphabet (pad t)) (decode std_alphabet (pad t)) d h) [
      | inl e ↦ omega (arith, decode-bounded url_alphabet t d (refl, refl) e, length-trim_space s)
      | inr e ↦ omega (arith, decode-bounded std_alphabet t d (refl, refl) e, length-trim_space s)
    ]
