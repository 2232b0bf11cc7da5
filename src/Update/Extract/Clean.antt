-- ===== src/Update/Extract/Clean.antt =====
-- filepath.Clean and filepath.IsAbs on Unix, and what a cleaned relative path looks like.
use connective.Prelude.{
  ◌==◌, ◌||◌, Bool, true, false, if◌then◌else◌, List, [], ◌∷◌, ◌++◌, Text, codes, is_empty, text_eq,
  text_eq_iff, has_prefix, split, split-Lacks, Lacks, All, ◌≡◌, ◌⊎◌, inl, inr, refl, sym, ap, ◌∙◌,
  Bool-cases,
}
use mathlib.Core.Path.{subst}

abbrev pub dot : Text
dot = codes "."

abbrev pub dot_dot : Text
dot_dot = codes ".."

abbrev pub is_rooted : Text → Bool
is_rooted [] = false
is_rooted (c ∷ s) = c == b'/'

-- One level up, with the last element of the path on top.
abbrev pub go_up : Bool → List Text → List Text
go_up true [] = []
go_up false [] = dot_dot ∷ []
go_up rooted (t ∷ st) = if text_eq t dot_dot then dot_dot ∷ t ∷ st else st

abbrev pub clean_step : Bool → List Text → Text → List Text
clean_step rooted st p =
    if is_empty p || text_eq p dot
    then st
    else if text_eq p dot_dot
    then go_up rooted st
    else p ∷ st

unfoldable pub clean_parts : Bool → List Text → List Text → List Text
clean_parts rooted st [] = st
clean_parts rooted st (p ∷ parts) = clean_parts rooted (clean_step rooted st p) parts

unfoldable pub back_onto : List Text → List Text → List Text
back_onto [] out = out
back_onto (p ∷ st) out = back_onto st (p ∷ out)

unfoldable pub join_path : List Text → Text
join_path [] = []
join_path (p ∷ []) = p
join_path (p ∷ q ∷ parts) = p ++ b'/' ∷ join_path (q ∷ parts)

abbrev pub parts_of : Text → List Text
parts_of s = back_onto (clean_parts (is_rooted s) [] (split b'/' s)) []

abbrev pub shown : Bool → Text → Text
shown true body = b'/' ∷ body
shown false [] = dot
shown false (c ∷ body) = c ∷ body

-- filepath.Clean
unfoldable pub clean : Text → Text
unfolding clean_parts back_onto join_path
clean s = shown (is_rooted s) (join_path (parts_of s))

-- A name in a directory.
pub record IsName (p : Text) : Type 0 where
  pub not_empty : is_empty p ≡ false
  pub not_dot : text_eq p dot ≡ false
  pub not_up : text_eq p dot_dot ≡ false
  pub no_slash : Lacks b'/' p

-- A path of names only, none of which leads up.
pub record IsInside (path : Text) : Type 0 where
  pub names : List Text
  pub is_path : path ≡ join_path names
  pub all_names : All IsName names
  pub first : Text
  pub others : List Text
  pub has_name : names ≡ first ∷ others

abbrev pub EndsUp : List Text → Type 0
EndsUp [] = ⊥
EndsUp (p ∷ []) = p ≡ dot_dot
EndsUp (p ∷ q ∷ st) = EndsUp (q ∷ st)

abbrev pub IsStack : List Text → Type 0
IsStack st = All IsName st ⊎ EndsUp st

EndsUp-push : (p : Text) (st : List Text) → EndsUp st → EndsUp (p ∷ st)
EndsUp-push p [] h = absurd h
EndsUp-push p (q ∷ st) h = h

EndsUp-pop : (t : Text) (st : List Text) → text_eq t dot_dot ≡ false → EndsUp (t ∷ st) → EndsUp st
EndsUp-pop t [] e h = cc ((text_eq_iff t dot_dot).1 h, e)
EndsUp-pop t (q ∷ st) e h = h

go_up-IsStack : (rooted : Bool) (st : List Text) → IsStack st → IsStack (go_up rooted st)
go_up-IsStack true [] h = h
go_up-IsStack false [] h = inr refl
go_up-IsStack rooted (t ∷ st) h = elim (Bool-cases (text_eq t dot_dot)) [
  | inl e ↦ rw e (elim h [ inl a ↦ cc (a.0.not_up, e) | inr d ↦ inr d ])
  | inr e ↦ rw e (elim h [ inl a ↦ inl a.1 | inr d ↦ inr (EndsUp-pop t st e d) ])
]

named :
    (p : Text)
    → is_empty p ≡ false
    → text_eq p dot ≡ false
    → text_eq p dot_dot ≡ false
    → Lacks b'/' p
    → (st : List Text) → IsStack st
    → IsStack (p ∷ st)
named p e d u l st (inl a) =
    inl (record { not_empty = e; not_dot = d; not_up = u; no_slash = l }, a)
named p e d u l st (inr h) = inr (EndsUp-push p st h)

clean_step-IsStack :
    (rooted : Bool) (st : List Text) (p : Text)
    → Lacks b'/' p
    → IsStack st
    → IsStack (clean_step rooted st p)
clean_step-IsStack rooted st p l h = elim (Bool-cases (is_empty p)) [
  | inl e ↦ rw e h
  | inr e ↦ elim (Bool-cases (text_eq p dot)) [
    | inl d ↦ rw (e, d) h
    | inr d ↦ elim (Bool-cases (text_eq p dot_dot)) [
      | inl u ↦ rw (e, d, u) (go_up-IsStack rooted st h)
      | inr u ↦ rw (e, d, u) (named p e d u l st h)
    ]
  ]
]

clean_parts-IsStack :
    (rooted : Bool) (st parts : List Text)
    → All (Lacks b'/') parts
    → IsStack st
    → IsStack (clean_parts rooted st parts)
unfolding clean_parts
clean_parts-IsStack rooted st [] l h = h
clean_parts-IsStack rooted st (p ∷ parts) l h =
    clean_parts-IsStack rooted (clean_step rooted st p) parts l.1
      (clean_step-IsStack rooted st p l.0 h)

back_onto-IsName :
    (st out : List Text) → All IsName st → All IsName out → All IsName (back_onto st out)
unfolding back_onto
back_onto-IsName [] out h k = k
back_onto-IsName (p ∷ st) out h k = back_onto-IsName st (p ∷ out) h.1 (h.0, k)

back_onto-up :
    (st out : List Text) → EndsUp st → (rest : List Text) × (back_onto st out ≡ dot_dot ∷ rest)
unfolding back_onto
back_onto-up [] out h = absurd h
back_onto-up (p ∷ []) out h = (out, ap (λ x. x ∷ out) h)
back_onto-up (p ∷ q ∷ st) out h = back_onto-up (q ∷ st) (p ∷ out) h

parts_of-cases :
    (s : Text) → All IsName (parts_of s) ⊎ ((rest : List Text) × (parts_of s ≡ dot_dot ∷ rest))
parts_of-cases s =
    elim (clean_parts-IsStack (is_rooted s) [] (split b'/' s) (split-Lacks b'/' s) (inl tt)) [
      | inl a ↦ inl (back_onto-IsName (clean_parts (is_rooted s) [] (split b'/' s)) [] a tt)
      | inr u ↦ inr (back_onto-up (clean_parts (is_rooted s) [] (split b'/' s)) [] u)
    ]

-- The path leads out of the directory that it is relative to, or is the directory.
abbrev pub leads_up : Text → Bool
leads_up rel = text_eq rel dot_dot || has_prefix rel (codes "../")

join_path-up : (rest : List Text) → leads_up (shown false (join_path (dot_dot ∷ rest))) ≡ true
unfolding join_path has_prefix text_eq
join_path-up [] = refl
join_path-up (q ∷ rest) = refl

shown-name :
    (p : Text) (parts : List Text)
    → IsName p
    → shown false (join_path (p ∷ parts)) ≡ join_path (p ∷ parts)
unfolding join_path
shown-name [] parts h = cc (h.not_empty)
shown-name (c ∷ p) [] h = refl
shown-name (c ∷ p) (q ∷ parts) h = refl

inside :
    (parts : List Text)
    → All IsName parts
    → text_eq (shown false (join_path parts)) dot ≡ false
    → IsInside (shown false (join_path parts))
unfolding join_path text_eq
inside [] a d = cc
inside (p ∷ parts) a d = record {
  names = p ∷ parts;
  is_path = shown-name p parts a.0;
  all_names = a;
  first = p;
  others = parts;
  has_name = refl;
}

settle :
    (path : Text) (parts : List Text)
    → All IsName parts ⊎ ((rest : List Text) × (parts ≡ dot_dot ∷ rest))
    → path ≡ shown false (join_path parts)
    → text_eq path dot ≡ false
    → leads_up path ≡ false
    → IsInside path
settle path parts (inl a) e d u =
    subst IsInside (sym e) (inside parts a (subst (λ x. text_eq x dot ≡ false) e d))
settle path parts (inr (rest, q)) e d u =
    let same : path ≡ shown false (join_path (dot_dot ∷ rest)) =
      e ∙ ap (λ x. shown false (join_path x)) q in
    cc (u, ap leads_up same, join_path-up rest)

-- A relative path that is cleaned, is not the directory itself and does not lead up, stays inside.
pub clean-IsInside :
    (s : Text)
    → is_rooted s ≡ false
    → text_eq (clean s) dot ≡ false
    → leads_up (clean s) ≡ false
    → IsInside (clean s)
unfolding clean
clean-IsInside s r d u =
    settle (clean s) (parts_of s) (parts_of-cases s) (ap (λ b. shown b (join_path (parts_of s))) r)
      d u
