-- ===== src/Update/Version/Policy.antt =====
-- What the update policy (`Acceptable`, `IsNewerThan`) lets through.
use connective.Prelude.{
  true, not, Text, is_empty, Result-cases, ok, err, ◌≡◌, ◌↔◌, ◌⊎◌, inl, inr, refl, sym, arith,
  Ordering, Bool-cases,
}
use connective.Update.Version.{
  Version, parse_version, compare_version, acceptable, check_minimum, is_gt, is_lt, not_newer,
}
use connective.Update.Version.Order.{compare_version-order}

-- An independent statement of the policy.
pub record IsUpgrade (current target minimum : Text) : Type 0 where
  pub old : Version
  pub new : Version
  pub old_parses : parse_version current ≡ ok old
  pub new_parses : parse_version target ≡ ok new
  pub newer : compare_version old new ≡ Ordering.lt
  pub supported :
      (is_empty minimum ≡ true)
      ⊎ ((least : Version) × (parse_version minimum ≡ ok least)
          × ((compare_version least old ≡ Ordering.lt) ⊎ (least ≡ old)))

gt-flip : (a b : Version) → is_gt (compare_version b a) ≡ true → compare_version a b ≡ Ordering.lt
gt-flip a b h = ground (arith, (compare_version-order a b).1)

flip-lt : (a b : Version) → compare_version a b ≡ Ordering.lt → compare_version b a ≡ Ordering.gt
flip-lt a b h = ground (arith, (compare_version-order a b).1)

not_lt-cases :
    (c m : Version)
    → not (is_lt (compare_version c m)) ≡ true
    → (compare_version m c ≡ Ordering.lt) ⊎ (m ≡ c)
not_lt-cases c m h = go (compare_version m c) refl
  where
    go : (o : Ordering) → compare_version m c ≡ o → (compare_version m c ≡ Ordering.lt) ⊎ (m ≡ c)
    go Ordering.lt e = inl e
    go Ordering.eq e = inr ((compare_version-order m c).0.0 e)
    go Ordering.gt e = ground (arith, (compare_version-order m c).1)

check_minimum_sound :
    (c : Version) (minimum : Text)
    → check_minimum c minimum ≡ ok tt
    → (is_empty minimum ≡ true)
      ⊎ ((least : Version) × (parse_version minimum ≡ ok least)
          × ((compare_version least c ≡ Ordering.lt) ⊎ (least ≡ c)))
unfolding check_minimum
check_minimum_sound c minimum h = elim (Bool-cases (is_empty minimum)) [
  | inl e ↦ inl e
  | inr e ↦ elim (Result-cases (parse_version minimum)) [
    | inl (m, em) ↦ inr (m, em, not_lt-cases c m (ground arith))
    | inr (x, ex) ↦ ground arith
  ]
]

check_minimum_complete :
    (c least : Version) (minimum : Text)
    → parse_version minimum ≡ ok least
    → (compare_version least c ≡ Ordering.lt) ⊎ (least ≡ c)
    → check_minimum c minimum ≡ ok tt
unfolding check_minimum
check_minimum_complete c least minimum e (inl h) = rw e (ground (arith, flip-lt least c h))
check_minimum_complete c least minimum e (inr h) =
    rw e (ground (arith, (compare_version-order c least).0.1 (sym h)))

acceptable_sound :
    (current target minimum : Text)
    → acceptable current target minimum ≡ ok tt
    → IsUpgrade current target minimum
unfolding acceptable
acceptable_sound current target minimum h = elim (Result-cases (parse_version current)) [
  | inl (c, ec) ↦ elim (Result-cases (parse_version target)) [
    | inl (t, et) ↦ record {
      old = c;
      new = t;
      old_parses = ec;
      new_parses = et;
      newer = gt-flip c t (ground arith);
      supported = check_minimum_sound c minimum (ground arith);
    }
    | inr (x, ex) ↦ ground arith
  ]
  | inr (x, ex) ↦ ground arith
]

acceptable_complete :
    (current target minimum : Text)
    → IsUpgrade current target minimum
    → acceptable current target minimum ≡ ok tt
unfolding acceptable
acceptable_complete current target minimum u =
    rw (u.old_parses, u.new_parses, flip-lt u.old u.new u.newer) (go u.supported)
  where
    go :
        (is_empty minimum ≡ true)
          ⊎ ((least : Version) × (parse_version minimum ≡ ok least)
              × ((compare_version least u.old ≡ Ordering.lt) ⊎ (least ≡ u.old)))
        → check_minimum u.old minimum ≡ ok tt
    go (inl e) = unfold check_minimum in (rw e)
    go (inr (least, e, o)) = check_minimum_complete u.old least minimum e o

-- `Acceptable` accepts a target exactly when both versions parse, the target is strictly newer, and
-- the minimum is absent, or parses and is no newer than the current version.
pub acceptable_iff :
    (current target minimum : Text)
    → (acceptable current target minimum ≡ ok tt) ↔ IsUpgrade current target minimum
acceptable_iff current target minimum =
    (acceptable_sound current target minimum, acceptable_complete current target minimum)

-- Where an update was acceptable, no way back is, whatever minimum the other manifest names.
pub no_downgrade :
    (current target minimum other : Text)
    → acceptable current target minimum ≡ ok tt
    → (c : Version) × (t : Version) × (acceptable target current other ≡ err (not_newer c t))
no_downgrade current target minimum other h =
    let u = acceptable_sound current target minimum h in
    (u.old, u.new, unfold acceptable in (rw (u.new_parses, u.old_parses, u.newer)))
