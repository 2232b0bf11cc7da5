-- ===== src/Monitor/Debounce.antt =====
-- A change is reported once, after enough rounds, and reports follow on each other.
use connective.Prelude.{
  ℕ, suc, ◌+◌, ◌≤◌, ◌<◌, leb, true, false, Bool-cases, List, [], ◌∷◌, ◌++◌, Option, none, some,
  Text, text_eq, text_eq_iff, text_eq_refl, ◌≡◌, ◌≢◌, ◌⊎◌, inl, inr, refl, sym, ◌∙◌, arith,
}
use mathlib.Core.Path.{subst}
use connective.Monitor.{Watch, start_watch, counted, tick, ticks}

-- The reports lead from one snapshot to another, each from where the one before it ended, and each to
-- another snapshot.
pub data Leads (from : Text) : List (Text × Text) → Text → Type 0 where
  stays : Leads from [] from
  moves :
      {cs : List (Text × Text)} {mid : Text} (to : Text)
      → Leads from cs mid
      → to ≢ mid
      → Leads from (cs ++ (mid, to) ∷ []) to

tick-Leads :
    (confirm : ℕ) (b : Text) (w : Watch) (p : Option Text)
    → Leads b w.changes w.baseline
    → Leads b (tick confirm w p).changes (tick confirm w p).baseline
unfolding tick
tick-Leads confirm b w none h = h
tick-Leads confirm b w (some cur) h = elim (Bool-cases (text_eq cur w.baseline)) [
  | inl e ↦ rw e h
  | inr e ↦ elim (Bool-cases (leb confirm (counted cur w))) [
    | inl f ↦ rw (e, f) (moves cur h (λ q. cc ((text_eq_iff cur w.baseline).1 q, e)))
    | inr f ↦ rw (e, f) h
  ]
]

ticks-Leads :
    (confirm : ℕ) (b : Text) (w : Watch) (ps : List (Option Text))
    → Leads b w.changes w.baseline
    → Leads b (ticks confirm w ps).changes (ticks confirm w ps).baseline
unfolding ticks
ticks-Leads confirm b w [] h = h
ticks-Leads confirm b w (p ∷ ps) h =
    ticks-Leads confirm b (tick confirm w p) ps (tick-Leads confirm b w p h)

-- Whatever the polls give, the reports of a watcher form a chain from the first snapshot to the current
-- baseline, and none of them reports a snapshot as changed into itself.
pub watcher-Leads :
    (confirm : ℕ) (first : Option Text) (ps : List (Option Text))
    → Leads
        (start_watch first).baseline
        (ticks confirm (start_watch first) ps).changes
        (ticks confirm (start_watch first) ps).baseline
watcher-Leads confirm first ps =
    ticks-Leads confirm (start_watch first).baseline (start_watch first) ps
      (unfold start_watch in stays)

-- Polls that give this snapshot or fail, and how many of them succeed.
abbrev pub Steady : Text → List (Option Text) → Type 0
Steady cur [] = Unit
Steady cur (none ∷ ps) = Steady cur ps
Steady cur (some s ∷ ps) = (s ≡ cur) × Steady cur ps

abbrev pub successes : List (Option Text) → ℕ
successes [] = 0
successes (none ∷ ps) = successes ps
successes (some s ∷ ps) = suc (successes ps)

-- The snapshot was seen `k` times in a row.
record IsCounting (cur : Text) (k : ℕ) (w : Watch) : Type 0 where
  pub so_far : w.rounds ≡ k
  pub same_candidate : (k ≡ 0) ⊎ (w.candidate ≡ cur)

counted-IsCounting : (cur : Text) (k : ℕ) (w : Watch) → IsCounting cur k w → counted cur w ≡ suc k
counted-IsCounting cur k w c =
    ground (arith, c.so_far, c.same_candidate, text_eq_refl cur, text_eq_iff cur w.candidate)

-- The reports and the baseline.
abbrev Shows : List (Text × Text) → Text → Watch → Type 0
Shows cs b w = (w.changes ≡ cs) × (w.baseline ≡ b)

tick_counts :
    (confirm : ℕ) (cur : Text) (k : ℕ) (w : Watch)
    → cur ≢ w.baseline
    → IsCounting cur k w
    → suc k < confirm
    → tick confirm w (some cur) ≡ record w { candidate = cur; rounds = suc k }
unfolding tick
tick_counts confirm cur k w n c l =
    let e = counted-IsCounting cur k w c in
    let f : text_eq cur w.baseline ≡ false = ground (arith, text_eq_iff cur w.baseline) in
    let g : leb confirm (counted cur w) ≡ false = ground arith in rw (f, g, e) refl

tick_reports :
    (confirm : ℕ) (cur : Text) (k : ℕ) (w : Watch)
    → cur ≢ w.baseline
    → IsCounting cur k w
    → confirm ≤ suc k
    → Shows (w.changes ++ (w.baseline, cur) ∷ []) cur (tick confirm w (some cur))
unfolding tick
tick_reports confirm cur k w n c l =
    let e = counted-IsCounting cur k w c in
    let f : text_eq cur w.baseline ≡ false = ground (arith, text_eq_iff cur w.baseline) in
    let g : leb confirm (counted cur w) ≡ true = ground arith in rw (f, g) (refl, refl)

-- Polls of the baseline report nothing.
settled :
    (confirm : ℕ) (cur : Text) (cs : List (Text × Text)) (w : Watch) (ps : List (Option Text))
    → Shows cs cur w
    → Steady cur ps
    → Shows cs cur (ticks confirm w ps)
unfolding ticks tick
settled confirm cur cs w [] h s = h
settled confirm cur cs w (none ∷ ps) h s = settled confirm cur cs w ps h s
settled confirm cur cs w (some x ∷ ps) h s =
    settled confirm cur cs (tick confirm w (some x)) ps (same x s.0) s.1
  where
    same : (x : Text) → x ≡ cur → Shows cs cur (tick confirm w (some x))
    same x e =
        let f : text_eq x w.baseline ≡ true = (text_eq_iff x w.baseline).1 (e ∙ sym h.1) in rw f h

abbrev Outcome : ℕ → Text → Watch → ℕ → Watch → Type 0
Outcome confirm cur w seen w' =
    ((seen < confirm) × Shows w.changes w.baseline w')
    ⊎ ((confirm ≤ seen) × Shows (w.changes ++ (w.baseline, cur) ∷ []) cur w')

tick_fails : (confirm : ℕ) (w : Watch) → tick confirm w none ≡ w
unfolding tick
tick_fails confirm w = refl

steady :
    (confirm : ℕ) (cur : Text) (k : ℕ) (w : Watch) (ps : List (Option Text))
    → cur ≢ w.baseline
    → IsCounting cur k w
    → k < confirm
    → Steady cur ps
    → Outcome confirm cur w (k + successes ps) (ticks confirm w ps)
unfolding ticks
steady confirm cur k w [] n c l s = inl (omega (arith, l), (refl, refl))
steady confirm cur k w (none ∷ ps) n c l s =
    subst (λ v. Outcome confirm cur w (k + successes ps) (ticks confirm v ps))
      (sym (tick_fails confirm w)) (steady confirm cur k w ps n c l s)
steady confirm cur k w (some x ∷ ps) n c l s =
    subst
      (λ y.
        Outcome confirm cur w (k + suc (successes ps)) (ticks confirm (tick confirm w (some y)) ps))
      (sym s.0)
      (elim (Bool-cases (leb confirm (suc k))) [
        | inl e ↦ inr (
          ground arith,
          settled confirm cur (w.changes ++ (w.baseline, cur) ∷ []) (tick confirm w (some cur)) ps
              (tick_reports confirm cur k w n c (ground arith)) s.1,
        )
        | inr e ↦
            let w' : Watch = record w { candidate = cur; rounds = suc k } in
            let rest =
              steady confirm cur (suc k) w' ps n
                (record { so_far = refl; same_candidate = inr refl }) (ground arith) s.1 in
            let same = tick_counts confirm cur k w n c (ground arith) in
            let count : suc k + successes ps ≡ k + suc (successes ps) = omega arith in
            subst (λ v. Outcome confirm cur w (k + suc (successes ps)) (ticks confirm v ps))
              (sym same) (subst (λ i. Outcome confirm cur w i (ticks confirm w' ps)) count rest)
      ])

-- While every poll fails or gives the same snapshot, other than the baseline, a watcher that has counted
-- nothing yet reports nothing as long as fewer than `confirm` polls succeeded; from then on it has
-- reported the change exactly once, and that snapshot is the baseline.
pub ticks_lem :
    (confirm : ℕ) (cur : Text) (w : Watch) (ps : List (Option Text))
    → cur ≢ w.baseline
    → w.rounds ≡ 0
    → 0 < confirm
    → Steady cur ps
    → ((successes ps < confirm)
        × (((ticks confirm w ps).changes ≡ w.changes)
            × ((ticks confirm w ps).baseline ≡ w.baseline)))
      ⊎ ((confirm ≤ successes ps)
          × (((ticks confirm w ps).changes ≡ w.changes ++ (w.baseline, cur) ∷ [])
              × ((ticks confirm w ps).baseline ≡ cur)))
ticks_lem confirm cur w ps n z l s =
    let none_yet : 0 + successes ps ≡ successes ps = omega arith in
    subst (λ i. Outcome confirm cur w i (ticks confirm w ps)) none_yet
      (steady confirm cur 0 w ps n (record { so_far = z; same_candidate = inl refl }) l s)
