-- ===== src/Update/Manager/System/Files.antt =====
-- What the handlers do to the staged files: an old file is never rewritten.
use connective.Prelude.{
  ℕ, ◌≤◌, ◌<◌, ◌==◌, ==_iff, if◌then◌else◌, List, [], ◌∷◌, none, some, Text, ◌≡◌, inl, inr, ◌∙◌,
  arith, Bool-cases,
}
use connective.Update.Lifecycle.{State}
use connective.Update.Manager.{
  Config, Manager, set_state, delete_file, file_hash, remove_file, create_file,
}

-- No file that was there before has other bytes now: it is unchanged, or gone.
pub record Extends (m m' : Manager) : Type 0 where
  pub grows : m.next_file ≤ m'.next_file
  pub keeps :
      (p : ℕ) (h : Text)
      → p < m.next_file
      → file_hash p m'.disk ≡ some h
      → file_hash p m.disk ≡ some h

pub Extends-refl : (m : Manager) → Extends m m
Extends-refl m = record { grows = omega arith; keeps = λ p h l e. e }

pub Extends-trans : {m n o : Manager} → Extends m n → Extends n o → Extends m o
Extends-trans a b = record {
  grows = omega (arith, a.grows, b.grows);
  keeps = λ p h l e. a.keeps p h l (b.keeps p h (omega (arith, a.grows)) e);
}

-- A handler that leaves the files alone.
pub Extends-same : {m m' : Manager} → m'.next_file ≡ m.next_file → m'.disk ≡ m.disk → Extends m m'
Extends-same n d = record { grows = omega arith; keeps = λ p h l e. rw (← d) e }

pub file_hash-delete_file :
    (p q : ℕ) (d : List (ℕ × Text))
    → file_hash p (delete_file q d) ≡ (if q == p then none else file_hash p d)
unfolding file_hash delete_file
file_hash-delete_file p q [] = ground arith
file_hash-delete_file p q ((r, k) ∷ d) = elim (Bool-cases (r == q)) [
  | inl e ↦ rw e (file_hash-delete_file p q d ∙ ground (arith, (==_iff r q).0 e))
  | inr e ↦ rw e (ground (arith, file_hash-delete_file p q d))
]

file_hash_deleted :
    (p q : ℕ) (h : Text) (d : List (ℕ × Text))
    → file_hash p (delete_file q d) ≡ some h
    → file_hash p d ≡ some h
file_hash_deleted p q h d e = ground (arith, file_hash-delete_file p q d)

pub Extends-remove_file : (p : ℕ) (m : Manager) → Extends m (remove_file p m)
unfolding remove_file
Extends-remove_file p m = record {
  grows = omega arith;
  keeps = λ q h l e. file_hash_deleted q p h m.disk e;
}

pub Extends-create_file : (h : Text) (m : Manager) → Extends m (create_file h m)
unfolding create_file
Extends-create_file h m = record {
  grows = omega arith;
  keeps = λ p k l e. unfold file_hash in (ground arith);
}

pub Extends-set_state :
    (c : Config) (to : State) (msg : Text) (m : Manager) → Extends m (set_state c to msg m)
unfolding set_state
Extends-set_state c to msg m = Extends-same (ground arith) (ground arith)
