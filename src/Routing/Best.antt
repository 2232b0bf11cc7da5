-- ===== src/Routing/Best.antt =====
-- Longest-prefix match finds the best of the matching routes.
use connective.Prelude.{
  ℕ, ◌<◌, true, false, if-cases, List, [], ◌∷◌, none, some, Any, All, ◌≡◌, ◌⊎◌, inl, inr, refl, sym,
  Bool-cases, arith, ◌∙◌, ◌↔◌,
}
use mathlib.Core.Path.{subst}
use connective.Prelude.Int.{◌≤ℤ◌}
use connective.Routing.{
  RouteEntry, prefix_length, matches, is_better, choose, match_from, longest_match,
}

-- No route of the two is preferred to `a`: a longer prefix, or the same one with a lower metric.
abbrev pub NoWorse : RouteEntry → RouteEntry → Type 0
NoWorse a b =
    (prefix_length b < prefix_length a)
    ⊎ ((prefix_length a ≡ prefix_length b) × (a.metric ≤ℤ b.metric))

-- `a` matches, stands in the table, and no matching route of the table is preferred to it.
pub record IsBest (d : ℕ) (entries : List RouteEntry) (a : RouteEntry) : Type 0 where
  pub is_match : matches d a ≡ true
  pub is_member : Any (λ e. e ≡ a) entries
  pub is_best : All (λ e. matches d e ≡ true → NoWorse a e) entries

-- The same, when `b` was found before the entries.
pub record IsBestFrom (d : ℕ) (b : RouteEntry) (entries : List RouteEntry) (a : RouteEntry)
    : Type 0 where
  pub from_match : matches d a ≡ true
  pub from_member : (b ≡ a) ⊎ Any (λ e. e ≡ a) entries
  pub from_first : NoWorse a b
  pub from_best : All (λ e. matches d e ≡ true → NoWorse a e) entries

better-NoWorse : (e b : RouteEntry) → is_better e b ≡ true → NoWorse e b
better-NoWorse e b h = ground (arith, h)

worse-NoWorse : (e b : RouteEntry) → is_better e b ≡ false → NoWorse b e
worse-NoWorse e b h = ground (arith, h)

NoWorse-refl : (a : RouteEntry) → NoWorse a a
NoWorse-refl a = inr (refl, omega arith)

NoWorse-trans : (a b c : RouteEntry) → NoWorse a b → NoWorse b c → NoWorse a c
NoWorse-trans a b c (inl h) (inl k) = inl (omega (arith, h, k))
NoWorse-trans a b c (inl h) (inr (k, _)) = inl (omega (arith, h, k))
NoWorse-trans a b c (inr (h, _)) (inl k) = inl (omega (arith, h, k))
NoWorse-trans a b c (inr (h, m)) (inr (k, n)) = inr (omega (arith, h, k), omega (arith, m, n))

-- What `choose` keeps is one of the two, and neither is preferred to it.
choose-lem :
    (e b : RouteEntry)
    → ((choose e (some b) ≡ e) ⊎ (choose e (some b) ≡ b))
      × NoWorse (choose e (some b)) e
      × NoWorse (choose e (some b)) b
choose-lem e b = elim (Bool-cases (is_better e b)) [
  | inl h ↦ rw h (inl refl, NoWorse-refl e, better-NoWorse e b h)
  | inr h ↦ rw h (inr refl, worse-NoWorse e b h, NoWorse-refl b)
]

choose-matches :
    (d : ℕ) (e b : RouteEntry)
    → matches d e ≡ true
    → matches d b ≡ true
    → matches d (choose e (some b)) ≡ true
choose-matches d e b he hb = elim (Bool-cases (is_better e b)) [ inl h ↦ rw h he | inr h ↦ rw h hb ]

take_entry :
    (d : ℕ) (e b : RouteEntry) (entries : List RouteEntry) (a : RouteEntry)
    → IsBestFrom d (choose e (some b)) entries a
    → IsBestFrom d b (e ∷ entries) a
take_entry d e b entries a h =
    let (c, ne, nb) = choose-lem e b in
    record {
      from_match = h.from_match;
      from_member = elim h.from_member [
        | inr m ↦ inr (inr m)
        | inl q ↦ elim c [ inl k ↦ inr (inl (sym k ∙ q)) | inr k ↦ inl (sym k ∙ q) ]
      ];
      from_first = NoWorse-trans a (choose e (some b)) b h.from_first nb;
      from_best = ((λ _. NoWorse-trans a (choose e (some b)) e h.from_first ne), h.from_best);
    }

skip_entry :
    (d : ℕ) (e b : RouteEntry) (entries : List RouteEntry) (a : RouteEntry)
    → matches d e ≡ false
    → IsBestFrom d b entries a
    → IsBestFrom d b (e ∷ entries) a
skip_entry d e b entries a n h = record {
  from_match = h.from_match;
  from_member = elim h.from_member [ inl q ↦ inl q | inr m ↦ inr (inr m) ];
  from_first = h.from_first;
  from_best = ((λ y. cc (n, y)), h.from_best);
}

match_from-IsBestFrom :
    (d : ℕ) (entries : List RouteEntry) (b a : RouteEntry)
    → matches d b ≡ true
    → match_from d (some b) entries ≡ some a
    → IsBestFrom d b entries a
unfolding match_from
match_from-IsBestFrom d [] b a m h =
    let q : b ≡ a = cc in
    subst (IsBestFrom d b []) q (record {
      from_match = m;
      from_member = inl refl;
      from_first = NoWorse-refl b;
      from_best = tt;
    })
match_from-IsBestFrom d (e ∷ entries) b a m h =
    elim (if-cases (matches d e) (match_from d (some (choose e (some b))) entries)
      (match_from d (some b) entries) (some a) h) [
        | inl (t, k) ↦
            take_entry d e b entries a
              (match_from-IsBestFrom d entries (choose e (some b)) a (choose-matches d e b t m) k)
        | inr (n, k) ↦ skip_entry d e b entries a n (match_from-IsBestFrom d entries b a m k)
      ]

-- A route that is chosen matches the address and stands in the table, and every matching route of the
-- table has a shorter prefix, or the same prefix length and a metric that is no lower.
pub longest_match-IsBest :
    (d : ℕ) (entries : List RouteEntry) (a : RouteEntry)
    → longest_match entries (some d) ≡ some a
    → IsBest d entries a
unfolding longest_match match_from
longest_match-IsBest d [] a h = cc
longest_match-IsBest d (e ∷ entries) a h =
    elim (if-cases (matches d e) (match_from d (some e) entries) (match_from d none entries)
      (some a) h) [
        | inl (t, k) ↦
            let b = match_from-IsBestFrom d entries e a t k in
            record {
              is_match = b.from_match;
              is_member = b.from_member;
              is_best = ((λ _. b.from_first), b.from_best);
            }
        | inr (n, k) ↦
            let b = longest_match-IsBest d entries a k in
            record {
              is_match = b.is_match;
              is_member = inr b.is_member;
              is_best = ((λ y. cc (n, y)), b.is_best);
            }
      ]

from_some-finds :
    (d : ℕ) (entries : List RouteEntry) (b : RouteEntry)
    → (a : RouteEntry) × (match_from d (some b) entries ≡ some a)
unfolding match_from
from_some-finds d [] b = (b, refl)
from_some-finds d (e ∷ entries) b = elim (Bool-cases (matches d e)) [
  | inl t ↦ rw t (from_some-finds d entries (choose e (some b)))
  | inr n ↦ rw n (from_some-finds d entries b)
]

-- A route is chosen exactly when one of the table matches.
pub longest_match_iff :
    (d : ℕ) (entries : List RouteEntry)
    → (longest_match entries (some d) ≡ none) ↔ All (λ e. matches d e ≡ false) entries
unfolding longest_match match_from
longest_match_iff d [] = (λ h. tt, λ h. refl)
longest_match_iff d (e ∷ entries) = elim (Bool-cases (matches d e)) [
  | inl t ↦ let (a, q) = from_some-finds d entries e in rw (t, q) ((λ h. cc), (λ h. cc (h.0)))
  | inr n ↦ let k = longest_match_iff d entries in rw n ((λ h. (refl, k.0 h)), (λ h. k.1 h.1))
]
