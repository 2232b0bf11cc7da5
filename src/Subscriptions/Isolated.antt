-- ===== src/Subscriptions/Isolated.antt =====
-- `UpdateAll`: what each subscription contributes, whatever happens to the others.
use connective.Prelude.{
  ℕ, suc, true, false, List, [], ◌∷◌, ◌++◌, Option, none, some, if-cases, Text, is_empty, length,
  Result, ok, err, ◌≡◌, inl, inr, refl,
}
use mathlib.Core.Path.{subst}
use connective.Servers.{Server}
use connective.Servers.Links.{Library}
use connective.Subscriptions.{Subscription, UpdateError, UpdateResult}
use connective.Subscriptions.Update.{Fetcher, update_one, refreshed, update_next, kept, update_all}
use connective.Subscriptions.Parsed.{IsRefresh, update_one-IsRefresh}

-- What became of a subscription, given what `UpdateOne` answers for it and the time it is asked at, and
-- the servers it brought.
pub data Outcome (answer : Option (Result UpdateError UpdateResult)) (now : ℕ)
    (sub o : Subscription) (brought : List Server) : Type 0 where
  skipped : sub.enabled ≡ false → o ≡ sub → brought ≡ [] → Outcome answer now sub o brought
  failed :
      (e : UpdateError)
      → sub.enabled ≡ true
      → answer ≡ some (err e)
      → o ≡ record sub { last_error = some e }
      → brought ≡ []
      → Outcome answer now sub o brought
  succeeded :
      (r : UpdateResult)
      → sub.enabled ≡ true
      → answer ≡ some (ok r)
      → IsRefresh sub.id r
      → brought ≡ r.servers
      → o ≡ record sub {
        last_error = none;
        last_update = now;
        traffic = r.res_traffic;
        server_count = length r.servers;
      }
      → Outcome answer now sub o brought

-- What `UpdateOne` answers for a subscription at a place of the list.
abbrev pub Answers : Type 0
Answers = ℕ → Subscription → Option (Result UpdateError UpdateResult)

-- Each subscription in its place, the first of them at place `i`, and the servers of all in the same order.
abbrev pub EachOutcome :
    Answers → (ℕ → ℕ) → ℕ → List Subscription → List Subscription → List Server → Type 0
EachOutcome answers times i [] [] all = all ≡ []
EachOutcome answers times i (sub ∷ subs) (o ∷ out) all =
    (brought : List Server) × (others : List Server) × (all ≡ brought ++ others)
    × Outcome (answers i sub) (times i) sub o brought
    × EachOutcome answers times (suc i) subs out others
EachOutcome answers times i _ _ all = ⊥

abbrev pub Outcomes :
    Answers → (ℕ → ℕ) → ℕ → List Subscription → List Server × List Subscription → Type 0
Outcomes answers times i subs p = EachOutcome answers times i subs p.1 p.0

module _ (answers : Answers) (times : ℕ → ℕ) where
  kept-Outcomes :
      (i : ℕ) (sub : Subscription) (subs : List Subscription)
      (rest : Option (List Server × List Subscription)) (p : List Server × List Subscription)
      → sub.enabled ≡ false
      → ((q : List Server × List Subscription)
          → rest ≡ some q
          → Outcomes answers times (suc i) subs q)
      → kept sub rest ≡ some p
      → Outcomes answers times i (sub ∷ subs) p
  kept-Outcomes i sub subs none p d ih h = cc
  kept-Outcomes i sub subs (some (all, out)) p d ih h =
      let q : (all, sub ∷ out) ≡ p = cc in
      subst (Outcomes answers times i (sub ∷ subs)) q
        ([], all, refl, skipped d refl refl, ih (all, out) refl)

  update_next-Outcomes :
      (i : ℕ) (sub : Subscription) (subs : List Subscription)
      (o : Option (Result UpdateError UpdateResult))
      (rest : Option (List Server × List Subscription)) (p : List Server × List Subscription)
      → answers i sub ≡ o
      → sub.enabled ≡ true
      → ((r : UpdateResult) → answers i sub ≡ some (ok r) → IsRefresh sub.id r)
      → ((q : List Server × List Subscription)
          → rest ≡ some q
          → Outcomes answers times (suc i) subs q)
      → update_next (times i) sub o rest ≡ some p
      → Outcomes answers times i (sub ∷ subs) p
  update_next-Outcomes i sub subs none rest p a d g ih h = cc
  update_next-Outcomes i sub subs (some r) none p a d g ih h = cc
  update_next-Outcomes i sub subs (some (err e)) (some (all, out)) p a d g ih h =
      let q : (all, refreshed (times i) sub (err e) ∷ out) ≡ p = cc in
      subst (Outcomes answers times i (sub ∷ subs)) q
        ([], all, refl, failed e d a refl refl, ih (all, out) refl)
  update_next-Outcomes i sub subs (some (ok r)) (some (all, out)) p a d g ih h =
      let q : (r.servers ++ all, refreshed (times i) sub (ok r) ∷ out) ≡ p = cc in
      subst (Outcomes answers times i (sub ∷ subs)) q
        (r.servers, all, refl, succeeded r d a (g r a) refl refl, ih (all, out) refl)

-- When `UpdateAll` returns, with ids that are not empty, each subscription stays in its place. A disabled
-- one is returned as it was and brings nothing. An enabled one for which `UpdateOne` answers an error has
-- only its last error set, to that error, and brings nothing. An enabled one for which `UpdateOne` answers
-- a result has its error cleared, its time set to the time of its turn, its traffic and its count set from
-- that result, and brings the servers of the result, of which there is at least one. The servers stand in
-- the order of the subscriptions.
pub update_all-Outcomes :
    (lib : Library) (calls : ℕ) (fresh : ℕ → ℕ → Text) (times : ℕ → ℕ) (fetch : Fetcher)
    → ((i n : ℕ) → is_empty (fresh i n) ≡ false)
    → (subs : List Subscription) (i : ℕ) (p : List Server × List Subscription)
    → update_all lib calls fresh times fetch i subs ≡ some p
    → Outcomes (λ j sub. update_one lib calls (fresh j) fetch sub) times i subs p
unfolding update_all
update_all-Outcomes lib calls fresh times fetch ids [] i p h =
    let q : ([], []) ≡ p = cc in
    subst (Outcomes (λ j sub. update_one lib calls (fresh j) fetch sub) times i []) q refl
update_all-Outcomes lib calls fresh times fetch ids (sub ∷ subs) i p h =
    let answers : Answers = λ j sub. update_one lib calls (fresh j) fetch sub in
    let ih = update_all-Outcomes lib calls fresh times fetch ids subs (suc i) in
    let rest = update_all lib calls fresh times fetch (suc i) subs in
    elim (if-cases sub.enabled (update_next (times i) sub (answers i sub) rest) (kept sub rest)
      (some p) h) [
        | inl (d, e) ↦
            update_next-Outcomes answers times i sub subs (answers i sub) rest p refl d
              (update_one-IsRefresh lib calls (fresh i) (ids i) fetch sub) ih e
        | inr (d, e) ↦ kept-Outcomes answers times i sub subs rest p d ih e
      ]
