-- ===== src/Logging/Ring.antt =====
-- The buffer holds the newest entries, and no more than its size.
use connective.Prelude.{
  ℕ, zero, suc, ◌+◌, ◌-◌, ◌≤◌, ltb, Bool, true, false, Bool-cases, if◌then◌else◌, List, [], ◌∷◌,
  ◌++◌, Text, length, drop, keep, length-append, length-drop, drop-append, All, All-drop, ◌≡◌, inl,
  inr, refl, sym, ap, ◌∙◌, arith,
}
use mathlib.Core.Path.{subst}
use connective.Prelude.Int.{ℤ, pos}
use connective.Logging.{
  Level, level_index, Entry, Logger, buffer_size, new_logger, set_sink, newest, log_entry,
  is_at_least, recent, clear, Call, logs, sets_sink, clears, run_call, run_calls,
}

module _ {ℓ} {A : Type ℓ} where
  newest-drop : (n : ℕ) (xs : List A) → newest n xs ≡ drop (length xs - n) xs
  newest-drop n xs = elim (Bool-cases (ltb n (length xs))) [
    | inl e ↦ rw e refl
    | inr e ↦ rw e (ap (λ k. drop k xs) (zero_left e))
  ]
    where
      zero_left : ltb n (length xs) ≡ false → 0 ≡ length xs - n
      zero_left e = ground arith

  drop_nil : (a : ℕ) → drop {A = A} a [] ≡ []
  drop_nil zero = refl
  drop_nil (suc a) = refl

  drop-drop : (a b : ℕ) (xs : List A) → drop a (drop b xs) ≡ drop (b + a) xs
  drop-drop a zero xs = let e : a ≡ 0 + a = omega arith in ap (λ k. drop k xs) e
  drop-drop a (suc b) [] = drop_nil a ∙ sym (drop_nil (suc b + a))
  drop-drop a (suc b) (x ∷ xs) =
      let e : suc (b + a) ≡ suc b + a = omega arith in
      drop-drop a b xs ∙ ap (λ k. drop k (x ∷ xs)) e

  length-newest : (n : ℕ) (xs : List A) → length (newest n xs) ≤ n
  length-newest n xs = elim (Bool-cases (ltb n (length xs))) [
    | inl e ↦ rw e (ground (arith, length-drop (length xs - n) xs))
    | inr e ↦ rw e (ground arith)
  ]

  -- What was dropped before is no loss.
  newest-newest :
      (n : ℕ) (xs : List A) (x : A) → newest n (newest n xs ++ x ∷ []) ≡ newest n (xs ++ x ∷ [])
  newest-newest n xs x =
      let k = length xs - n in
      let kept : newest n xs ++ x ∷ [] ≡ drop k (xs ++ x ∷ []) =
        ap (λ ys. ys ++ x ∷ []) (newest-drop n xs)
        ∙ sym (drop-append k xs (x ∷ []) (omega arith)) in
      ap (newest n) kept
      ∙ newest-drop n (drop k (xs ++ x ∷ []))
      ∙ drop-drop (length (drop k (xs ++ x ∷ [])) - n) k (xs ++ x ∷ [])
      ∙ ap (λ i. drop i (xs ++ x ∷ []))
          (omega (arith, length-drop k (xs ++ x ∷ []), length-append xs (x ∷ [])))
      ∙ sym (newest-drop n (xs ++ x ∷ []))

  All-newest : (P : A → Type 0) (n : ℕ) (xs : List A) → All P xs → All P (newest n xs)
  All-newest P n xs h = elim (Bool-cases (ltb n (length xs))) [
    | inl e ↦ rw e (All-drop P (length xs - n) xs h)
    | inr e ↦ rw e h
  ]

-- All the entries that were accepted since the buffer was cleared last.
abbrev pub history : (Text → Text) → Level → List Entry → List Call → List Entry
history redact min h [] = h
history redact min h (logs now level msg ∷ cs) =
    history redact min
      (if ltb (level_index level) (level_index min)
        then h
        else h ++ record { at = now; entry_level = level; message = redact msg } ∷ [])
      cs
history redact min h (sets_sink ∷ cs) = history redact min h cs
history redact min h (clears ∷ cs) = history redact min [] cs

-- The buffer is the newest part of what was accepted.
record Follows (min : Level) (max : ℕ) (h : List Entry) (l : Logger) : Type 0 where
  pub level_kept : l.level ≡ min
  pub max_kept : l.max ≡ max
  pub newest_kept : l.entries ≡ newest max h

log_entry-Follows :
    (redact : Text → Text) (min : Level) (max : ℕ) (h : List Entry) (l : Logger) (now : ℕ)
    (level : Level) (msg : Text)
    → Follows min max h l
    → Follows min max
        (if ltb (level_index level) (level_index min)
          then h
          else h ++ record { at = now; entry_level = level; message = redact msg } ∷ [])
        (log_entry redact now level msg l)
unfolding log_entry
log_entry-Follows redact min max h l now level msg f =
    let e : Entry = record { at = now; entry_level = level; message = redact msg } in
    record {
      level_kept = ground (arith, f.level_kept);
      max_kept = ground (arith, f.max_kept);
      newest_kept = ground (arith, f.level_kept, f.max_kept, f.newest_kept, newest-newest max h e);
    }

run_calls-Follows :
    (redact : Text → Text) (min : Level) (max : ℕ) (h : List Entry) (l : Logger) (cs : List Call)
    → Follows min max h l
    → (run_calls redact l cs).entries ≡ newest max (history redact min h cs)
unfolding run_calls run_call
run_calls-Follows redact min max h l [] f = f.newest_kept
run_calls-Follows redact min max h l (sets_sink ∷ cs) f =
    run_calls-Follows redact min max h (set_sink l) cs (
      unfold set_sink in
      (record { level_kept = f.level_kept; max_kept = f.max_kept; newest_kept = f.newest_kept }))
run_calls-Follows redact min max h l (clears ∷ cs) f =
    run_calls-Follows redact min max [] (clear l) cs (
      unfold clear in
      (record { level_kept = f.level_kept; max_kept = f.max_kept; newest_kept = ground arith }))
run_calls-Follows redact min max h l (logs now level msg ∷ cs) f =
    run_calls-Follows redact min max
      (if ltb (level_index level) (level_index min)
        then h
        else h ++ record { at = now; entry_level = level; message = redact msg } ∷ [])
      (log_entry redact now level msg l) cs (log_entry-Follows redact min max h l now level msg f)

-- After any sequence of calls on a new logger, the buffer holds exactly the newest entries, as many as
-- its size, of all that were accepted since it was cleared last: those at or above the logger's
-- level, in order, each with its message redacted.
pub run_calls-history :
    (redact : Text → Text) (min : Level) (size : ℤ) (cs : List Call)
    → (run_calls redact (new_logger min size) cs).entries
      ≡ newest (buffer_size size) (history redact min [] cs)
run_calls-history redact min size cs =
    run_calls-Follows redact min (buffer_size size) [] (new_logger min size) cs (
      unfold new_logger in
      (record { level_kept = refl; max_kept = refl; newest_kept = ground arith }))

-- The buffer never holds more entries than its size.
pub run_calls-bounded :
    (redact : Text → Text) (min : Level) (size : ℤ) (cs : List Call)
    → length (run_calls redact (new_logger min size) cs).entries ≤ buffer_size size
run_calls-bounded redact min size cs =
    subst (λ es. length es ≤ buffer_size size) (sym (run_calls-history redact min size cs))
      (length-newest (buffer_size size) (history redact min [] cs))

keep-All : (p : Entry → Bool) (es : List Entry) → All (λ e. p e ≡ true) (keep p es)
keep-All p [] = tt
keep-All p (e ∷ es) = elim (Bool-cases (p e)) [
  | inl h ↦ rw h (h, keep-All p es)
  | inr h ↦ rw h (keep-All p es)
]

-- `Recent` returns only entries at or above the level it is asked for, and no more than a positive
-- number that it is given.
pub recent_lem :
    (n : ℕ) (min : Level) (l : Logger)
    → (length (recent (pos (suc n)) min l) ≤ suc n)
      × All (λ e. is_at_least min e ≡ true) (recent (pos (suc n)) min l)
unfolding recent
recent_lem n min l = (
  length-newest (suc n) (keep (is_at_least min) l.entries),
  All-newest (λ e. is_at_least min e ≡ true) (suc n) (keep (is_at_least min) l.entries)
      (keep-All (is_at_least min) l.entries),
)
