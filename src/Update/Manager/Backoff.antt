-- ===== src/Update/Manager/Backoff.antt =====
-- The pause after failed checks, and the spacing of background checks.
use connective.Prelude.{
  ℕ, zero, suc, ◌+◌, ◌*◌, ◌/◌, ◌^◌, ◌≤◌, ◌<◌, Bool, true, false, ltb, ◌==◌, ==_iff, ◌&&◌, not,
  &&_true, if◌then◌else◌, none, some, ◌≡◌, ◌⊎◌, inl, inr, refl, arith, Bool-cases,
}
use mathlib.Core.Path.{subst}
use connective.Update.Lifecycle.{checking, allowed}
use connective.Update.Manager.{Config, Cache, Manager, unix, set_state, save_cache, channel_of}
use connective.Update.Manager.Check.{
  backoff, backoff_base, backoff_max, cooling, too_soon, start_check, check_interval, may_check,
  Query,
}

-- The value that the doubling has, without the limits of an int64.
abbrev pub doubled : ℕ → ℕ
doubled n = backoff_base * 2 ^ n

-- The pause that is meant: doubled, up to the ninth failure.
abbrev pub pause : ℕ → ℕ
pause k = if ltb k 9 then doubled k else backoff_max

-- The shifts below `n` give the pause that is meant.
unfoldable right_below : ℕ → Bool
right_below zero = true
right_below (suc n) = let rest = right_below n in backoff (suc n) == pause n && rest

right_below-lem : (n k : ℕ) → right_below n ≡ true → k < n → backoff (suc k) ≡ pause k
unfolding right_below
right_below-lem zero k h l = omega (arith, l)
right_below-lem (suc n) k h l =
    let (here, rest) = &&_true (backoff (suc n) == pause n) (right_below n) h in
    elim (Bool-cases (n == k)) [
      | inl e ↦
          subst (λ i. backoff (suc i) ≡ pause i) ((==_iff n k).0 e)
            ((==_iff (backoff (suc n)) (pause n)).0 here)
      | inr e ↦ right_below-lem n k rest (ground arith)
    ]

right_below_63 : right_below 63 ≡ true
unfolding right_below backoff
right_below_63 = refl

past_63 : (k : ℕ) → 63 ≤ k → backoff (suc k) ≡ pause k
unfolding backoff
past_63 k h = ground arith

-- Failure by failure the pause doubles from five minutes, up to the ninth; from the tenth failure on it
-- is 24 hours, however many failures there are: no overflow of the shift brings a short pause back.
pub backoff_lem :
    (k : ℕ) → backoff (suc k) ≡ (if ltb k 9 then backoff_base * 2 ^ k else backoff_max)
backoff_lem k = elim (Bool-cases (ltb k 63)) [
  | inl e ↦ right_below-lem 63 k right_below_63 (ground arith)
  | inr e ↦ past_63 k (ground arith)
]

not_too_soon :
    (now : ℕ) (m : Manager)
    → too_soon now m ≡ false
    → (m.cache.last_check_unix + check_interval ≤ unix now) × (cooling now m.cache ≡ false)
unfolding too_soon
not_too_soon now m h = ground arith

cooled :
    (now : ℕ) (c : Cache)
    → cooling now c ≡ false
    → (c.fail_count ≡ 0) ⊎ (c.last_check_unix + backoff c.fail_count / 1000000000 ≤ unix now)
unfolding cooling
cooled now c h = ground arith

started :
    (c : Config) (now : ℕ) (m : Manager) (q : Query)
    → (start_check c now false m).1 ≡ some q
    → too_soon now m ≡ false
unfolding start_check
started c now m q h = ground arith

-- A background check is started only six hours or more after the last check, whoever asked for that
-- one, and after failures only when the pause for their number is over as well.
pub start_check-spaced :
    (c : Config) (now : ℕ) (m : Manager) (q : Query)
    → (start_check c now false m).1 ≡ some q
    → (m.cache.last_check_unix + check_interval ≤ unix now)
      × ((m.cache.fail_count ≡ 0)
          ⊎ (m.cache.last_check_unix + backoff m.cache.fail_count / 1000000000 ≤ unix now))
start_check-spaced c now m q h =
    let (a, b) = not_too_soon now m (started c now m q h) in (a, cooled now m.cache b)

-- A check is started, by hand or not, only from a state that may check; then the state is `checking`,
-- the moment is stamped on the cache and the cache is saved. When none is started, the state, the
-- offer and the cache stay.
pub start_check-cases :
    (c : Config) (now : ℕ) (manual : Bool) (m : Manager)
    → ((q : Query) × ((start_check c now manual m).1 ≡ some q)
        × (may_check m.state ≡ true)
        × ((start_check c now manual m).0.state ≡ checking)
        × ((start_check c now manual m).0.cache.last_check_unix ≡ unix now)
        × ((start_check c now manual m).0.saved_cache ≡ (start_check c now manual m).0.cache))
      ⊎ (((start_check c now manual m).1 ≡ none)
          × ((start_check c now manual m).0.state ≡ m.state)
          × ((start_check c now manual m).0.pending ≡ m.pending)
          × ((start_check c now manual m).0.cache ≡ m.cache))
unfolding start_check save_cache set_state allowed
start_check-cases c now manual m = elim (Bool-cases (not manual && too_soon now m)) [
  | inl e ↦ inr (ground arith, ground arith, ground arith, ground arith)
  | inr e ↦ elim (Bool-cases (may_check m.state)) [
    | inl f ↦ inl (query c, ground arith, f, ground arith, ground arith, ground arith)
    | inr f ↦ inr (ground arith, ground arith, ground arith, ground arith)
  ]
]
  where
    query : Config → Query
    query c = record {
      query_channel = channel_of c;
      query_platform = c.platform;
      query_arch = c.arch;
      query_current = c.current;
    }
