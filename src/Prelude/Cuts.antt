-- ===== src/Prelude/Cuts.antt =====
-- The pieces of a text around a character, and its prefixes.
use Prim.Native.Nat.{ℕ, suc, ◌+◌}
use mathlib.Core.Path.{◌≡◌}
use mathlib.Core.Bool.{Bool, true, false, ◌||◌}
use mathlib.Core.List.{[], ◌∷◌}
use mathlib.Core.Option.{Option, none, some}
use native.Mathlib.Omega.{arith}
use connective.Prelude.Lists.{length, drop}
use connective.Prelude.Tests.{◌==◌, if◌then◌else◌}
use connective.Prelude.Texts.{Text, has_prefix}

-- strings.ContainsRune, for one character.
unfoldable pub has_char : ℕ → Text → Bool
has_char c [] = false
has_char c (d ∷ s) = d == c || has_char c s

-- What stands before and behind the first `c` (strings.Cut).
unfoldable pub cut_first : ℕ → Text → Option (Text × Text)
cut_first c [] = none
cut_first c (d ∷ s) =
    let rest = cut_first c s in
    if d == c then some ([], s) else elim rest [ none ↦ none | some p ↦ some (d ∷ p.0, p.1) ]

-- What stands before and behind the last `c`.
unfoldable pub cut_last : ℕ → Text → Option (Text × Text)
cut_last c [] = none
cut_last c (d ∷ s) =
    let rest = cut_last c s in
    elim rest [ some p ↦ some (d ∷ p.0, p.1) | none ↦ if d == c then some ([], s) else none ]

-- strings.TrimPrefix
unfoldable pub trim_prefix : Text → Text → Text
unfolding has_prefix
trim_prefix p s = if has_prefix s p then drop (length p) s else s

-- The pieces and the character make up a text of this length.
abbrev pub CutOf : ℕ → Option (Text × Text) → Type 0
CutOf n none = Unit
CutOf n (some (a, b)) = suc (length a + length b) ≡ n

first_step :
    (b : Bool) (d : ℕ) (s : Text) (o : Option (Text × Text))
    → CutOf (length s) o
    → CutOf
        (suc (length s))
        (if b then some ([], s) else elim o [ none ↦ none | some p ↦ some (d ∷ p.0, p.1) ])
first_step true d s o h = omega arith
first_step false d s none h = tt
first_step false d s (some p) h = omega (arith, h)

pub cut_first-CutOf : (c : ℕ) (s : Text) → CutOf (length s) (cut_first c s)
unfolding cut_first
cut_first-CutOf c [] = tt
cut_first-CutOf c (d ∷ s) = first_step (d == c) d s (cut_first c s) (cut_first-CutOf c s)

last_step :
    (b : Bool) (d : ℕ) (s : Text) (o : Option (Text × Text))
    → CutOf (length s) o
    → CutOf
        (suc (length s))
        (elim o [ some p ↦ some (d ∷ p.0, p.1) | none ↦ if b then some ([], s) else none ])
last_step b d s (some p) h = omega (arith, h)
last_step true d s none h = omega arith
last_step false d s none h = tt

pub cut_last-CutOf : (c : ℕ) (s : Text) → CutOf (length s) (cut_last c s)
unfolding cut_last
cut_last-CutOf c [] = tt
cut_last-CutOf c (d ∷ s) = last_step (d == c) d s (cut_last c s) (cut_last-CutOf c s)
