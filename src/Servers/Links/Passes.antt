-- ===== src/Servers/Links/Passes.antt =====
-- How often `parseShadowsocks` calls itself.
use connective.Prelude.{
  ℕ, zero, suc, ◌+◌, ◌≤◌, ◌<◌, true, Bool-cases, [], ◌∷◌, ◌++◌, Option, none, some, Option-cases,
  Text, codes, contains, has_prefix, cut_first, cut_last, CutOf, cut_first-CutOf, cut_last-CutOf,
  trim_prefix, trim_space, length, drop, length-append, length-drop, drop-append, Lacks, Result,
  ◌≡◌, ◌⊎◌, inl, inr, refl, sym, arith,
}
use mathlib.Core.Path.{subst}
use connective.Servers.{Server}
use connective.Servers.Base64.{decode_either, decode_either-bounded, decode, decode_quanta, pad}
use connective.Servers.Hosts.{before_char}
use connective.Servers.Links.{
  LinkError, Pass, ends, again, ss_link, ss_user, ss_whole, ss_body, ss_rest, ss_name, ss_pass,
  parse_shadowsocks,
}

-- What a call works on, and how long it is.
abbrev pub body_of : Text → Text
body_of link = before_char b'#' (ss_rest link)

before_char-le : (c : ℕ) (s : Text) → length (before_char c s) ≤ length s
before_char-le c s = go (cut_first c s) (cut_first-CutOf c s)
  where
    go :
        (o : Option (Text × Text))
        → CutOf (length s) o
        → length (elim o [ none ↦ s | some p ↦ p.0 ]) ≤ length s
    go none h = omega arith
    go (some p) h = omega (arith, h)

-- Cutting at a `c` that follows `s` leaves no more than `s`.
before_char-append : (c : ℕ) (s t : Text) → length (before_char c (s ++ c ∷ t)) ≤ length s
unfolding cut_first
before_char-append c [] t = ground arith
before_char-append c (d ∷ s) t = ground (arith, before_char-append c s t)

-- A prefix without `c` lies before the first `c`.
has_prefix-length :
    (c : ℕ) (s t p : Text) → Lacks c p → has_prefix (s ++ c ∷ t) p ≡ true → length p ≤ length s
unfolding has_prefix
has_prefix-length c s t [] l h = omega arith
has_prefix-length c [] t (x ∷ p) l h = ground (arith, l.0)
has_prefix-length c (d ∷ s) t (x ∷ p) l h = ground (arith, has_prefix-length c s t p l.1)

trim_prefix-body :
    (c : ℕ) (s t p : Text)
    → Lacks c p
    → length (before_char c (trim_prefix p (s ++ c ∷ t))) ≤ length s
unfolding trim_prefix
trim_prefix-body c s t p l = elim (Bool-cases (has_prefix (s ++ c ∷ t) p)) [
  | inl e ↦
      let k = has_prefix-length c s t p l e in
      rw e (
        rw (drop-append (length p) s (c ∷ t) k)
          (omega (arith, before_char-append c (drop (length p) s) t, length-drop (length p) s)))
  | inr e ↦ rw e (before_char-append c s t)
]

body_of-ss_link : (r name : Text) → length (body_of (ss_link r name)) ≤ length r
body_of-ss_link r name =
    subst (λ x. length (before_char b'#' (trim_prefix (codes "shadowsocks://") x)) ≤ length r)
      (sym scheme_trimmed) (trim_prefix-body b'#' r name (codes "shadowsocks://") all_lack)
  where
    scheme_trimmed : trim_prefix (codes "ss://") (ss_link r name) ≡ r ++ b'#' ∷ name
    scheme_trimmed = unfold trim_prefix has_prefix in refl

    all_lack : Lacks b'#' (codes "shadowsocks://")
    all_lack = (
      refl,
      (
        refl,
        (
          refl,
          (
            refl,
            (refl, (refl, (refl, (refl, (refl, (refl, (refl, (refl, (refl, (refl, tt)))))))))),
          ),
        ),
      ),
    )

contains-length : (s : Text) → contains s (codes ":") ≡ true → 1 ≤ length s
unfolding contains has_prefix
contains-length [] h = cc
contains-length (c ∷ s) h = omega arith

-- The next link is shorter, or this one was empty.
Shrinks : ℕ → Text → Type 0
Shrinks n l = (length (body_of l) < n) ⊎ ((n ≡ 0) × (length (body_of l) ≡ 0))

ss_whole-Shrinks :
    (name rest l : Text) → ss_whole name (decode_either rest) ≡ again l → Shrinks (length rest) l
unfolding Shrinks
ss_whole-Shrinks name rest l h = elim (Option-cases (decode_either rest)) [
  | inl e ↦ cc (rw e at h)
  | inr (d, e) ↦
      let same : ss_link d name ≡ l = cc (rw e at h) in
      let bound = decode_either-bounded rest d e in
      subst (Shrinks (length rest)) same (ground (arith, bound, body_of-ss_link d name))
]

ss_user-Shrinks :
    (fresh name user hostport l : Text)
    → ss_user fresh name user hostport (decode_either user) ≡ again l
    → length (body_of l) < suc (length user + length hostport)
ss_user-Shrinks fresh name user hostport l h = elim (Option-cases (decode_either user)) [
  | inl e ↦ cc (rw e at h)
  | inr (d, e) ↦ elim (Bool-cases (contains d (codes ":"))) [
    | inr f ↦ cc (rw (e, f) at h)
    | inl f ↦
        let same : ss_link (d ++ b'@' ∷ hostport) name ≡ l = cc (rw (e, f) at h) in
        subst (λ x. length (body_of x) < suc (length user + length hostport)) same
          (omega (
            arith,
            decode_either-bounded user d e,
            contains-length d f,
            body_of-ss_link (d ++ b'@' ∷ hostport) name,
            length-append d (b'@' ∷ hostport),
          ))
  ]
]

ss_body-Shrinks :
    (fresh name rest l : Text) (o : Option (Text × Text))
    → CutOf (length rest) o
    → ss_body fresh name rest o ≡ again l
    → Shrinks (length rest) l
unfolding Shrinks
ss_body-Shrinks fresh name rest l none c h = ss_whole-Shrinks name rest l h
ss_body-Shrinks fresh name rest l (some (user, hostport)) c h = inl (
    omega (
      arith,
      ss_user-Shrinks fresh name (before_char b'?' user) hostport l h,
      before_char-le b'?' user,
      c,
    ))

ss_pass-Shrinks :
    (fresh link l : Text) → ss_pass fresh link ≡ again l → Shrinks (length (body_of link)) l
unfolding ss_pass
ss_pass-Shrinks fresh link l h =
    ss_body-Shrinks fresh (ss_name (ss_rest link)) (body_of link) l (cut_last b'@' (body_of link))
      (cut_last-CutOf b'@' (body_of link)) h

-- An empty body is decoded to an empty body.
empty_again :
    (fresh link : Text)
    → length (body_of link) ≡ 0
    → ss_pass fresh link ≡ again (ss_link [] (ss_name (ss_rest link)))
unfolding ss_pass
empty_again fresh link h = go (body_of link) h
  where
    go :
        (rest : Text)
        → length rest ≡ 0
        → ss_body fresh (ss_name (ss_rest link)) rest (cut_last b'@' rest)
          ≡ again (ss_link [] (ss_name (ss_rest link)))
    go [] e = unfold cut_last decode_either decode decode_quanta pad trim_space in refl
    go (c ∷ s) e = absurd (omega (arith, e))

-- A link whose body is empty, as in `ss://` and `ss://#name`, is never parsed: however many calls are
-- allowed, `parseShadowsocks` calls itself once more. A line of a subscription may be such a link.
pub empty_body_endless :
    (calls : ℕ) (fresh link : Text)
    → length (body_of link) ≡ 0
    → parse_shadowsocks calls fresh link ≡ none
unfolding parse_shadowsocks ss_pass cut_last cut_first trim_prefix
empty_body_endless zero fresh link h = refl
empty_body_endless (suc calls) fresh link h =
    let l = ss_link [] (ss_name (ss_rest link)) in
    rw (empty_again fresh link h) (
      empty_body_endless calls fresh l (omega (arith, body_of-ss_link [] (ss_name (ss_rest link)))))

-- The parser returns, or no number of calls is enough.
abbrev pub Decided : Text → Text → ℕ → Type 0
Decided fresh link calls =
    ((r : Result LinkError Server) × (parse_shadowsocks calls fresh link ≡ some r))
    ⊎ ((more : ℕ) → parse_shadowsocks more fresh link ≡ none)

endless_step :
    (fresh link l : Text)
    → ss_pass fresh link ≡ again l
    → ((more : ℕ) → parse_shadowsocks more fresh l ≡ none)
    → (more : ℕ) → parse_shadowsocks more fresh link ≡ none
unfolding parse_shadowsocks ss_pass cut_last cut_first trim_prefix
endless_step fresh link l e h zero = refl
endless_step fresh link l e h (suc more) = rw e (h more)

Pass-cases :
    (p : Pass) → ((r : Result LinkError Server) × (p ≡ ends r)) ⊎ ((l : Text) × (p ≡ again l))
Pass-cases (ends r) = inl (r, refl)
Pass-cases (again l) = inr (l, refl)

-- More calls than the body of the link has characters are as good as any number: if they do not bring a
-- result, `parseShadowsocks` never returns.
pub parse_shadowsocks-Decided :
    (calls : ℕ) (fresh link : Text) → length (body_of link) < calls → Decided fresh link calls
unfolding parse_shadowsocks ss_pass cut_last cut_first trim_prefix Shrinks
parse_shadowsocks-Decided zero fresh link h = absurd (omega (arith, h))
parse_shadowsocks-Decided (suc calls) fresh link h = elim (Pass-cases (ss_pass fresh link)) [
  | inl (r, e) ↦ inl (r, rw e refl)
  | inr (l, e) ↦ elim (ss_pass-Shrinks fresh link l e) [
    | inl s ↦ elim (parse_shadowsocks-Decided calls fresh l (omega (arith, h, s))) [
      | inl (r, q) ↦ inl (r, rw e q)
      | inr q ↦ inr (endless_step fresh link l e q)
    ]
    | inr (z, y) ↦ inr (endless_step fresh link l e (λ more. empty_body_endless more fresh l y))
  ]
]
