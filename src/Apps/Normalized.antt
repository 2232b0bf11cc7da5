-- ===== src/Apps/Normalized.antt =====
-- What a normalized list of application ids is.
use connective.Prelude.{
  ℕ, zero, suc, ◌≤◌, ltb, ◌||◌, Bool, true, false, Bool-cases, if◌then◌else◌, List, [], ◌∷◌, Text,
  is_empty, text_eq, text_eq_refl, length, All, ◌≡◌, ◌⊎◌, inl, inr, refl, sym, ap, arith, map,
  trim_space,
}
use connective.Prelude.Int.{ℤ}
use mathlib.Core.Path.{subst}
use connective.Apps.{
  app_id, base, checked_name, is_app_text, is_no_name, trim_exe, slashed, has_id, collect, list_cap,
  normalize_list,
}

-- A usable id: neither empty nor overlong, and over the alphabet of the core's rules.
pub record IsAppId (s : Text) : Type 0 where
  pub nonempty : is_empty s ≡ false
  pub bounded : length s ≤ 128
  pub in_alphabet : is_app_text s ≡ true

checked_name-IsAppId : (s : Text) → (is_empty (checked_name s) ≡ true) ⊎ IsAppId (checked_name s)
unfolding checked_name
checked_name-IsAppId s = elim (Bool-cases (ltb 128 (length s))) [
  | inl e ↦ inl (rw e refl)
  | inr e ↦ elim (Bool-cases (is_app_text s)) [
    | inr f ↦ inl (rw (e, f) refl)
    | inl f ↦ elim (Bool-cases (is_empty s)) [
      | inl g ↦ inl (rw (e, f) g)
      | inr g ↦ inr (rw (e, f) (record { nonempty = g; bounded = ground arith; in_alphabet = f }))
    ]
  ]
]

-- No name, or a usable one.
abbrev MaybeId : Text → Type 0
MaybeId s = (is_empty s ≡ true) ⊎ IsAppId s

dropped-MaybeId : (b : Bool) (s : Text) → MaybeId s → MaybeId (if b then [] else s)
dropped-MaybeId true s h = inl refl
dropped-MaybeId false s h = h

app_id-MaybeId : (to_lower : Text → Text) (s : Text) → MaybeId (app_id to_lower s)
unfolding app_id
app_id-MaybeId to_lower s =
    let b = trim_space (base (map slashed (trim_space s))) in
    dropped-MaybeId (is_empty (trim_space s)) (if is_no_name b then [] else _)
      (dropped-MaybeId (is_no_name b) _ (checked_name-IsAppId (trim_exe (to_lower b))))

-- No id of the list is among those before it, nor among those seen.
abbrev pub Fresh : List Text → List Text → Type 0
Fresh seen [] = Unit
Fresh seen (x ∷ xs) = (has_id x seen ≡ false) × Fresh (x ∷ seen) xs

-- What a round of the loop may do.
collect-cases :
    (to_lower : Text → Text) (room : ℕ) (seen : List Text) (s : Text) (names : List Text)
    → (((is_empty (app_id to_lower s) || has_id (app_id to_lower s) seen) ≡ true)
        × (collect to_lower (suc room) seen (s ∷ names) ≡ collect to_lower (suc room) seen names))
      ⊎ ((is_empty (app_id to_lower s) ≡ false)
          × (has_id (app_id to_lower s) seen ≡ false)
          × (collect to_lower (suc room) seen (s ∷ names)
              ≡ app_id to_lower s ∷ collect to_lower room (app_id to_lower s ∷ seen) names))
unfolding collect
collect-cases to_lower room seen s names =
    elim (Bool-cases (is_empty (app_id to_lower s) || has_id (app_id to_lower s) seen)) [
      | inl e ↦ inl (e, rw e refl)
      | inr e ↦ inr (ground arith, ground arith, rw e refl)
    ]

-- A normalized list, after the ids seen.
abbrev Normal : ℕ → List Text → List Text → Type 0
Normal room seen ids = (length ids ≤ room) × All IsAppId ids × Fresh seen ids

usable : (s : Text) → MaybeId s → is_empty s ≡ false → IsAppId s
usable s (inl e) h = cc
usable s (inr i) h = i

collect-Normal :
    (to_lower : Text → Text) (room : ℕ) (seen names : List Text)
    → Normal room seen (collect to_lower room seen names)
collect-Normal to_lower zero seen names = unfold collect in (omega arith, tt, tt)
collect-Normal to_lower (suc room) seen [] = unfold collect in (omega arith, tt, tt)
collect-Normal to_lower (suc room) seen (s ∷ names) =
    elim (collect-cases to_lower room seen s names) [
      | inl (_, e) ↦
          subst (Normal (suc room) seen) (sym e) (collect-Normal to_lower (suc room) seen names)
      | inr (n, f, e) ↦
          let (l, a, d) = collect-Normal to_lower room (app_id to_lower s ∷ seen) names in
          subst (Normal (suc room) seen) (sym e)
            (omega (arith, l), (usable _ (app_id-MaybeId to_lower s) n, a), (f, d))
    ]

-- The list holds at most `max` ids, or 200 when no positive number is given; each is non-empty, has at
-- most 128 characters and only characters of the alphabet; and none stands in it twice.
pub normalize_list-lem :
    (to_lower : Text → Text) (names : List Text) (max : ℤ)
    → (length (normalize_list to_lower names max) ≤ list_cap max)
      × All IsAppId (normalize_list to_lower names max)
      × Fresh [] (normalize_list to_lower names max)
unfolding normalize_list
normalize_list-lem to_lower names max = collect-Normal to_lower (list_cap max) [] names

-- The id stands in the list, unless the list is full.
abbrev Covered : ℕ → List Text → List Text → Text → Type 0
Covered room seen ids id =
    (is_empty id ≡ true)
    ⊎ ((has_id id seen ≡ true) ⊎ ((has_id id ids ≡ true) ⊎ (length ids ≡ room)))

Covered-next :
    (room : ℕ) (seen ids : List Text) (x id : Text)
    → Covered room (x ∷ seen) ids id
    → Covered (suc room) seen (x ∷ ids) id
unfolding has_id
Covered-next room seen ids x id (inl e) = inl e
Covered-next room seen ids x id (inr (inl e)) = elim (Bool-cases (text_eq x id)) [
  | inl f ↦ inr (inr (inl (rw f refl)))
  | inr f ↦ inr (inl (ground arith))
]
Covered-next room seen ids x id (inr (inr (inl e))) = inr (inr (inl (ground arith)))
Covered-next room seen ids x id (inr (inr (inr e))) = inr (inr (inr (ap suc e)))

All-Covered-next :
    (to_lower : Text → Text) (room : ℕ) (seen ids : List Text) (x : Text) (names : List Text)
    → All (λ s. Covered room (x ∷ seen) ids (app_id to_lower s)) names
    → All (λ s. Covered (suc room) seen (x ∷ ids) (app_id to_lower s)) names
All-Covered-next to_lower room seen ids x [] h = tt
All-Covered-next to_lower room seen ids x (s ∷ names) h = (
  Covered-next room seen ids x (app_id to_lower s) h.0,
  All-Covered-next to_lower room seen ids x names h.1,
)

All-full :
    (to_lower : Text → Text) (seen ids names : List Text)
    → ids ≡ []
    → All (λ s. Covered zero seen ids (app_id to_lower s)) names
All-full to_lower seen ids [] h = tt
All-full to_lower seen ids (s ∷ names) h =
    (inr (inr (inr (ap length h))), All-full to_lower seen ids names h)

collect-Covered :
    (to_lower : Text → Text) (room : ℕ) (seen names : List Text)
    → All (λ s. Covered room seen (collect to_lower room seen names) (app_id to_lower s)) names
collect-Covered to_lower zero seen names =
    All-full to_lower seen (collect to_lower zero seen names) names (unfold collect in refl)
collect-Covered to_lower (suc room) seen [] = tt
collect-Covered to_lower (suc room) seen (s ∷ names) =
    elim (collect-cases to_lower room seen s names) [
      | inl (k, e) ↦
          subst (λ ids. All (λ x. Covered (suc room) seen ids (app_id to_lower x)) (s ∷ names))
            (sym e) (skipped _ k, collect-Covered to_lower (suc room) seen names)
      | inr (n, f, e) ↦
          subst (λ ids. All (λ x. Covered (suc room) seen ids (app_id to_lower x)) (s ∷ names))
            (sym e)
            (
              inr (inr (inl (unfold has_id in (rw (text_eq_refl (app_id to_lower s)) refl)))),
              All-Covered-next to_lower room seen
                  (collect to_lower room (app_id to_lower s ∷ seen) names) (app_id to_lower s) names
                  (collect-Covered to_lower room (app_id to_lower s ∷ seen) names),
            )
    ]
  where
    skipped :
        (ids : List Text)
        → (is_empty (app_id to_lower s) || has_id (app_id to_lower s) seen) ≡ true
        → Covered (suc room) seen ids (app_id to_lower s)
    skipped ids k = elim (Bool-cases (is_empty (app_id to_lower s))) [
      | inl e ↦ inl e
      | inr e ↦ inr (inl (ground arith))
    ]

-- The name has no id, or its id is in the list, or the list is full.
abbrev pub IsKept : (Text → Text) → ℕ → List Text → Text → Type 0
IsKept to_lower room ids s =
    (is_empty (app_id to_lower s) ≡ true)
    ⊎ ((has_id (app_id to_lower s) ids ≡ true) ⊎ (length ids ≡ room))

Covered-IsKept :
    (to_lower : Text → Text) (room : ℕ) (ids : List Text) (s : Text)
    → Covered room [] ids (app_id to_lower s)
    → IsKept to_lower room ids s
unfolding has_id
Covered-IsKept to_lower room ids s (inl e) = inl e
Covered-IsKept to_lower room ids s (inr (inl e)) = cc
Covered-IsKept to_lower room ids s (inr (inr e)) = inr e

All-IsKept :
    (to_lower : Text → Text) (room : ℕ) (ids names : List Text)
    → All (λ s. Covered room [] ids (app_id to_lower s)) names
    → All (IsKept to_lower room ids) names
All-IsKept to_lower room ids [] h = tt
All-IsKept to_lower room ids (x ∷ names) h =
    (Covered-IsKept to_lower room ids x h.0, All-IsKept to_lower room ids names h.1)

-- Every name of the input that has an id is kept, unless the list is full.
pub normalize_list-IsKept :
    (to_lower : Text → Text) (names : List Text) (max : ℤ)
    → All (IsKept to_lower (list_cap max) (normalize_list to_lower names max)) names
unfolding normalize_list
normalize_list-IsKept to_lower names max =
    All-IsKept to_lower (list_cap max) (collect to_lower (list_cap max) [] names) names
      (collect-Covered to_lower (list_cap max) [] names)
