-- ===== src/Update/Extract/Top.antt =====
-- `zipTopPrefix` finds a folder that all members share.
use connective.Prelude.{
  ℕ, ◌==◌, ◌||◌, Bool, true, false, if◌then◌else◌, List, [], ◌∷◌, ◌++◌, append_assoc, Option, none,
  some, Text, codes, is_empty, text_eq, text_eq_iff, has_prefix, cut_first, All, ◌≡◌, ◌⊎◌, inl, inr,
  refl, sym, ap, ◌∙◌, Bool-cases, ==_iff, arith,
}
use mathlib.Core.Path.{subst}
use connective.Update.Extract.{
  Member, trim_slash, with_segment, top_step, top_of, zip_top_prefix, in_top,
}
use connective.Update.Extract.Clean.{is_rooted}

trim_slash-cases : (s : Text) → (s ≡ trim_slash s) ⊎ (s ≡ trim_slash s ++ codes "/")
unfolding trim_slash
trim_slash-cases [] = inl refl
trim_slash-cases (c ∷ []) = elim (Bool-cases (c == b'/')) [
  | inl e ↦ inr (rw e (ap (λ x. x ∷ []) ((==_iff c b'/').0 e)))
  | inr e ↦ inl (rw e refl)
]
trim_slash-cases (c ∷ d ∷ s) = elim (trim_slash-cases (d ∷ s)) [
  | inl e ↦ inl (ap (λ x. c ∷ x) e)
  | inr e ↦ inr (ap (λ x. c ∷ x) e)
]

-- The pieces around the character make up the text.
abbrev pub CutAt : ℕ → Text → Option (Text × Text) → Type 0
CutAt c s none = Unit
CutAt c s (some (a, b)) = s ≡ a ++ c ∷ b

cut_step :
    (c d : ℕ) (s : Text) (o : Option (Text × Text)) (b : Bool)
    → (d == c) ≡ b
    → CutAt c s o
    → CutAt c
        (d ∷ s)
        (if b then some ([], s) else elim o [ none ↦ none | some p ↦ some (d ∷ p.0, p.1) ])
cut_step c d s o true e h = ap (λ x. x ∷ s) ((==_iff d c).0 e)
cut_step c d s none false e h = tt
cut_step c d s (some (a, r)) false e h = ap (λ x. d ∷ x) h

cut_first-CutAt : (c : ℕ) (s : Text) → CutAt c s (cut_first c s)
unfolding cut_first
cut_first-CutAt c [] = tt
cut_first-CutAt c (d ∷ s) = cut_step c d s (cut_first c s) (d == c) refl (cut_first-CutAt c s)

cut_first-joins : (c : ℕ) (s a b : Text) → cut_first c s ≡ some (a, b) → s ≡ a ++ c ∷ b
cut_first-joins c s a b h = subst (CutAt c s) h (cut_first-CutAt c s)

either-second : (a b : Bool) → b ≡ true → (a || b) ≡ true
either-second true b h = refl
either-second false b h = h

has_prefix-append : (p s : Text) → has_prefix (p ++ s) p ≡ true
unfolding has_prefix
has_prefix-append [] s = refl
has_prefix-append (c ∷ p) s = ground (arith, has_prefix-append p s)

-- The member stands in the folder, unless its name is empty or an absolute path.
abbrev pub Covers : Text → Member → Type 0
Covers top m =
    is_empty (trim_slash m.name) ≡ false → is_rooted m.name ≡ false → in_top top m.name ≡ true

in_top-joined : (top rest name : Text) → name ≡ top ++ b'/' ∷ rest → in_top top name ≡ true
in_top-joined top rest name e = either-second (text_eq name top) _ (
    subst (λ x. has_prefix x (top ++ codes "/") ≡ true)
      (sym (e ∙ sym (append_assoc top (codes "/") rest)))
      (has_prefix-append (top ++ codes "/") rest))

covers-cut :
    (m : Member) (seg rest : Text)
    → cut_first b'/' (trim_slash m.name) ≡ some (seg, rest)
    → in_top seg m.name ≡ true
covers-cut m seg rest e =
    let q = cut_first-joins b'/' (trim_slash m.name) seg rest e in
    elim (trim_slash-cases m.name) [
      | inl s ↦ in_top-joined seg rest m.name (s ∙ q)
      | inr s ↦
          in_top-joined seg (rest ++ codes "/") m.name
            (s ∙ ap (λ x. x ++ codes "/") q ∙ append_assoc seg (b'/' ∷ rest) (codes "/"))
    ]

covers-folder : (m : Member) → in_top (trim_slash m.name) m.name ≡ true
covers-folder m = elim (trim_slash-cases m.name) [
  | inl s ↦ rw ((text_eq_iff m.name (trim_slash m.name)).1 s) refl
  | inr s ↦ in_top-joined (trim_slash m.name) [] m.name s
]

rooted_clash : {P : Type 0} (s t : Text) → s ≡ b'/' ∷ t → is_rooted s ≡ false → P
rooted_clash s t e r = let q : true ≡ false = sym (ap is_rooted e) ∙ r in cc

-- An empty first segment belongs to an absolute path.
first_segment :
    (m : Member) (seg rest : Text)
    → cut_first b'/' (trim_slash m.name) ≡ some (seg, rest)
    → is_empty (trim_slash m.name) ≡ false
    → is_rooted m.name ≡ false
    → is_empty seg ≡ false
first_segment m [] rest e n r =
    let q = cut_first-joins b'/' (trim_slash m.name) [] rest e in
    elim (trim_slash-cases m.name) [
      | inl s ↦ rooted_clash m.name rest (s ∙ q) r
      | inr s ↦ rooted_clash m.name (rest ++ codes "/") (s ∙ ap (λ x. x ++ codes "/") q) r
    ]
first_segment m (c ∷ seg) rest e n r = refl

-- The folder that is found, from `top` on: it covers the members, and is `top` if there was one.
abbrev pub Found : Text → List Member → Text → Type 0
Found top members t = is_empty t ≡ false → (is_empty top ≡ false → t ≡ top) × All (Covers t) members

-- What is known of the first segment of a member's name.
abbrev pub IsSegment : Member → Text → Type 0
IsSegment m seg =
    (in_top seg m.name ≡ true)
    × (is_empty (trim_slash m.name) ≡ false → is_rooted m.name ≡ false → is_empty seg ≡ false)

Goes : (Text → Text) → List Member → Type 0
Goes next members = (t : Text) → Found t members (next t)

same_segment :
    (next : Text → Text) (x : ℕ) (top seg : Text) (members : List Member) (m : Member) (b : Bool)
    → text_eq (x ∷ top) seg ≡ b
    → Goes next members
    → IsSegment m seg
    → Found (x ∷ top) (m ∷ members) (if b then next (x ∷ top) else [])
unfolding Goes
same_segment next x top seg members m false q ih c n = cc
same_segment next x top seg members m true q ih c n =
    let f = ih (x ∷ top) n in
    let t : next (x ∷ top) ≡ seg = f.0 refl ∙ (text_eq_iff (x ∷ top) seg).0 q in
    (λ _. f.0 refl, (λ _ _. subst (λ y. in_top y m.name ≡ true) (sym t) c.0, f.1))

with_segment-Found :
    (next : Text → Text) (top seg : Text) (members : List Member) (m : Member)
    → Goes next members
    → IsSegment m seg
    → Found top (m ∷ members) (with_segment next top seg)
unfolding Goes
with_segment-Found next [] seg members m ih c n =
    let f = ih seg n in
    let here = λ (e : is_empty (trim_slash m.name) ≡ false) (r : is_rooted m.name ≡ false).
      subst (λ y. in_top y m.name ≡ true) (sym (f.0 (c.1 e r))) c.0 in
    ((λ z. cc), (here, f.1))
with_segment-Found next (x ∷ top) seg members m ih c n =
    same_segment next x top seg members m (text_eq (x ∷ top) seg) refl ih c n

folder-Found :
    (next : Text → Text) (top : Text) (members : List Member) (m : Member) (b : Bool)
    → Goes next members
    → Found top (m ∷ members) (if b then with_segment next top (trim_slash m.name) else [])
folder-Found next top members m true ih =
    with_segment-Found next top (trim_slash m.name) members m ih (covers-folder m, λ e r. e)
folder-Found next top members m false ih = λ n. cc

top_step-Found :
    (next : Text → Text) (top : Text) (members : List Member) (m : Member)
    (o : Option (Text × Text))
    → cut_first b'/' (trim_slash m.name) ≡ o
    → Goes next members
    → Found top (m ∷ members) (top_step next top m.is_dir o (trim_slash m.name))
top_step-Found next top members m (some (seg, rest)) e ih =
    with_segment-Found next top seg members m ih
      (covers-cut m seg rest e, first_segment m seg rest e)
top_step-Found next top members m none e ih = folder-Found next top members m m.is_dir ih

member-Found :
    (next : Text → Text) (top : Text) (members : List Member) (m : Member) (b : Bool)
    → is_empty (trim_slash m.name) ≡ b
    → Goes next members
    → Found top (m ∷ members) (
        if b
        then next top
        else top_step next top m.is_dir (cut_first b'/' (trim_slash m.name)) (trim_slash m.name))
unfolding Goes
member-Found next top members m true e ih n = let f = ih top n in (f.0, (λ z. cc, f.1))
member-Found next top members m false e ih n =
    top_step-Found next top members m (cut_first b'/' (trim_slash m.name)) refl ih n

top_of-Found : (members : List Member) (top : Text) → Found top members (top_of top members)
unfolding top_of Goes
top_of-Found [] top n = (λ _. refl, tt)
top_of-Found (m ∷ members) top n =
    member-Found (λ t. top_of t members) top members m (is_empty (trim_slash m.name)) refl
      (top_of-Found members) n

-- When `zipTopPrefix` finds a top folder, every member whose name is neither empty nor an absolute path
-- stands in it, so that `unzipAll` refuses none of them as outside.
pub zip_top_prefix-Covers :
    (members : List Member)
    → is_empty (zip_top_prefix members) ≡ false
    → All (Covers (zip_top_prefix members)) members
unfolding zip_top_prefix
zip_top_prefix-Covers members n = (top_of-Found members [] n).1
