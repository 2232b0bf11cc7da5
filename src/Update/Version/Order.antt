-- ===== src/Update/Version/Order.antt =====
-- `Compare` is a total order on versions.
use connective.Prelude.{
  true, false, if◌then◌else◌, [], ◌∷◌, Text, is_empty, text_eq_iff, text_compare, Ordering, ◌≡◌,
  refl, ◌↔◌, arith,
}
use connective.Update.Version.{Version, compare_pre, compare_version}

-- The comparison with its sides exchanged.
abbrev pub flip : Ordering → Ordering
flip Ordering.lt = Ordering.gt
flip Ordering.eq = Ordering.eq
flip Ordering.gt = Ordering.lt

text_compare-eq : (a b : Text) → text_compare a b ≡ Ordering.eq → a ≡ b
unfolding text_compare
text_compare-eq [] [] h = refl
text_compare-eq [] (b ∷ bs) h = cc
text_compare-eq (a ∷ as') [] h = cc
text_compare-eq (a ∷ as') (b ∷ bs) h = ground (arith, text_compare-eq as' bs)

text_compare-flip : (a b : Text) → text_compare b a ≡ flip (text_compare a b)
unfolding text_compare
text_compare-flip [] [] = refl
text_compare-flip [] (b ∷ bs) = refl
text_compare-flip (a ∷ as') [] = refl
text_compare-flip (a ∷ as') (b ∷ bs) = ground (arith, text_compare-flip as' bs)

text_compare_trans :
    (a b c : Text)
    → text_compare a b ≡ Ordering.lt
    → text_compare b c ≡ Ordering.lt
    → text_compare a c ≡ Ordering.lt
unfolding text_compare
text_compare_trans [] [] [] h k = cc
text_compare_trans [] (b ∷ bs) [] h k = cc
text_compare_trans [] b (c ∷ cs) h k = refl
text_compare_trans (a ∷ as') [] c h k = cc
text_compare_trans (a ∷ as') (b ∷ bs) [] h k = cc
text_compare_trans (a ∷ as') (b ∷ bs) (c ∷ cs) h k = ground (arith, text_compare_trans as' bs cs)

compare_pre-flip : (p q : Text) → compare_pre q p ≡ flip (compare_pre p q)
unfolding compare_pre
compare_pre-flip p q =
    ground (arith, text_eq_iff p q, text_eq_iff q p, text_compare-flip p q, empty_pair p q)
  where
    empty_pair : (p q : Text) → is_empty p ≡ true → is_empty q ≡ true → p ≡ q
    empty_pair [] [] e f = refl
    empty_pair [] (b ∷ q) e f = cc
    empty_pair (a ∷ p) q e f = cc

compare_pre-eq : (p q : Text) → (compare_pre p q ≡ Ordering.eq) ↔ (p ≡ q)
unfolding compare_pre
compare_pre-eq p q = (
  λ h. ground (arith, text_eq_iff p q, text_compare-eq p q),
  λ e. ground (arith, text_eq_iff p q),
)

compare_pre_trans :
    (p q r : Text)
    → compare_pre p q ≡ Ordering.lt
    → compare_pre q r ≡ Ordering.lt
    → compare_pre p r ≡ Ordering.lt
unfolding compare_pre
compare_pre_trans p q r h k = ground (
  arith,
  text_eq_iff p q,
  text_eq_iff q r,
  text_eq_iff p r,
  text_compare_trans p q r,
  text_compare-flip q r,
  text_compare-flip p q,
)

compare-flip : (v o : Version) → compare_version o v ≡ flip (compare_version v o)
unfolding compare_version
compare-flip v o = ground (arith, compare_pre-flip v.pre o.pre)

compare-eq : (v o : Version) → compare_version v o ≡ Ordering.eq → v ≡ o
unfolding compare_version
compare-eq v o h = ground (arith, (compare_pre-eq v.pre o.pre).0)

compare_refl : (v : Version) → compare_version v v ≡ Ordering.eq
unfolding compare_version
compare_refl v = ground (arith, (compare_pre-eq v.pre v.pre).1 refl)

-- Being older is transitive.
pub compare_version_trans :
    (v o w : Version)
    → compare_version v o ≡ Ordering.lt
    → compare_version o w ≡ Ordering.lt
    → compare_version v w ≡ Ordering.lt
unfolding compare_version
compare_version_trans v o w h k = ground (arith, compare_pre_trans v.pre o.pre w.pre)

final_over_pre :
    (v : Version)
    → compare_version (record v { pre = [] }) v
      ≡ (if is_empty v.pre then Ordering.eq else Ordering.gt)
unfolding compare_version compare_pre
final_over_pre v = ground (arith, text_eq_iff [] v.pre, no_text v.pre)
  where
    no_text : (p : Text) → is_empty p ≡ true → [] ≡ p
    no_text [] e = refl
    no_text (a ∷ p) e = cc

-- `Compare` answers 0 exactly on equal versions, exchanging the two versions exchanges -1 and +1, and a
-- final release outranks a prerelease of the same numbers.
pub compare_version-order :
    (v o : Version)
    → ((compare_version v o ≡ Ordering.eq) ↔ (v ≡ o))
      × (compare_version o v ≡ flip (compare_version v o))
      × (compare_version (record v { pre = [] }) v
          ≡ (if is_empty v.pre then Ordering.eq else Ordering.gt))
compare_version-order v o =
    ((compare-eq v o, λ e. rw e (compare_refl o)), compare-flip v o, final_over_pre v)

-- A final release outranks each of its own prereleases.
pub final_outranks :
    (v o : Version)
    → is_empty v.pre ≡ true
    → is_empty o.pre ≡ false
    → v.major ≡ o.major
    → v.minor ≡ o.minor
    → v.patch ≡ o.patch
    → compare_version v o ≡ Ordering.gt
unfolding compare_version compare_pre
final_outranks v o e f a b c = ground (arith, text_eq_iff v.pre o.pre)
