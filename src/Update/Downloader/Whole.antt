-- ===== src/Update/Downloader/Whole.antt =====
-- What is downloaded is whole, within the bound, and has the hash that is reported.
use connective.Prelude.{
  ℕ, zero, suc, ◌+◌, ◌≤◌, ltb, Bool, true, false, if-cases, [], ◌++◌, length, length-append, Option,
  none, some, Text, Result, ok, err, ◌≡◌, inl, inr, refl, sym, ap, Bool-cases, arith,
}
use mathlib.Core.Path.{subst}
use connective.Prelude.Int.{ℤ, pos}
use connective.Update.Downloader.{
  Downloader, byte_limit, DownloadError, short_download, canceled, Staged, feed, Source, ends,
  breaks, stops, jams, gives, copy_source, Answer, refusal, local, whole, partial, total_of,
  empty_staged, rehashed, with_total, attempt, is_short, landed, attempted, fetch_from, fetch,
  max_retries,
}

-- The staged file is within the bound, and the hash was fed just its bytes.
pub record IsFaithful (d : Downloader) (s : Staged) : Type 0 where
  pub same : s.hashed ≡ s.file
  pub bound : length s.file ≤ byte_limit d

feed-IsFaithful :
    (d : Downloader) (bytes : Text) (s : Staged)
    → IsFaithful d s
    → length s.file + length bytes ≤ byte_limit d
    → IsFaithful d (feed bytes s)
feed-IsFaithful d bytes s h k = record {
  same = ap (λ x. x ++ bytes) h.same;
  bound = omega (arith, length-append s.file bytes, k);
}

copy_source-IsFaithful :
    (d : Downloader) (total : ℤ) (src : Source) (s : Staged)
    → IsFaithful d s
    → IsFaithful d (copy_source d total s src).0
unfolding copy_source
copy_source-IsFaithful d total ends s h = h
copy_source-IsFaithful d total breaks s h = h
copy_source-IsFaithful d total stops s h = h
copy_source-IsFaithful d total jams s h = h
copy_source-IsFaithful d total (gives bytes src) s h =
    elim (Bool-cases (ltb (byte_limit d) (length s.file + length bytes))) [
      | inl e ↦ rw e h
      | inr e ↦
          let k : length s.file + length bytes ≤ byte_limit d = ground (arith, e) in
          elim (Bool-cases (d.goes_on (length s.file + length bytes) total)) [
            | inl g ↦
                rw (e, g)
                  (copy_source-IsFaithful d total src (feed bytes s)
                    (feed-IsFaithful d bytes s h k))
            | inr g ↦ rw (e, g) (feed-IsFaithful d bytes s h k)
          ]
    ]

-- The total that an attempt goes by: the expected size, when there is one.
abbrev pub IsTotal : ℤ → ℤ → Type 0
IsTotal expected total = (n : ℕ) → expected ≡ pos (suc n) → total ≡ pos (suc n)

total_of-IsTotal : (expected : ℤ) (o : Option ℤ) → IsTotal expected (total_of expected o)
total_of-IsTotal expected none n e = e
total_of-IsTotal expected (some m) n e =
    subst (λ x. total_of x (some m) ≡ pos (suc n)) (sym e) (ground arith)

-- What an attempt leaves: a file within the bound, and on success the staged file itself.
abbrev pub IsAttempt : Downloader → ℤ → Text × Result DownloadError (ℤ × Staged) → Type 0
IsAttempt d expected (file, ok (total, s)) = IsFaithful d s × IsTotal expected total
IsAttempt d expected (file, err e) = length file ≤ byte_limit d

with_total-IsAttempt :
    (d : Downloader) (expected : ℤ) (o : Option ℤ) (p : Staged × Result DownloadError (Unit {0}))
    → IsFaithful d p.0
    → IsAttempt d expected (with_total (total_of expected o) p)
with_total-IsAttempt d expected o (s, ok _) h = (h, total_of-IsTotal expected o)
with_total-IsAttempt d expected o (s, err e) h = h.bound

empty-IsFaithful : (d : Downloader) → IsFaithful d empty_staged
empty-IsFaithful d = record { same = refl; bound = omega arith }

attempt-IsAttempt :
    (d : Downloader) (expected : ℤ) (file : Text) (a : Answer)
    → length file ≤ byte_limit d
    → IsAttempt d expected (attempt d expected file a)
unfolding attempt
attempt-IsAttempt d expected file refusal h = h
attempt-IsAttempt d expected file (local size src) h =
    let t = total_of expected size in
    with_total-IsAttempt d expected size (copy_source d t empty_staged src)
      (copy_source-IsFaithful d t src empty_staged (empty-IsFaithful d))
attempt-IsAttempt d expected file (whole len src) h =
    let t = total_of expected (some len) in
    with_total-IsAttempt d expected (some len) (copy_source d t empty_staged src)
      (copy_source-IsFaithful d t src empty_staged (empty-IsFaithful d))
attempt-IsAttempt d expected file (partial len src) h =
    let t = total_of expected len in
    with_total-IsAttempt d expected len (copy_source d t (rehashed file) src)
      (copy_source-IsFaithful d t src (rehashed file) (record { same = refl; bound = h }))

-- A download that succeeds: the hash is that of the file, which is within the bound and has the
-- expected size, if one is expected.
pub record IsLanded (d : Downloader) (expected : ℤ) (p : Text × Text) : Type 0 where
  pub hash_matches_file : p.1 ≡ d.sha256 p.0
  pub within : length p.0 ≤ byte_limit d
  pub is_whole : (n : ℕ) → expected ≡ pos (suc n) → length p.0 ≡ suc n

long_enough : (n done : ℕ) → is_short (pos (suc n)) done ≡ false → done ≡ suc n
long_enough n done h = ground (arith, h)

landed-IsLanded :
    (d : Downloader) (close_fails : Bool) (expected total : ℤ) (s : Staged) (p : Text × Text)
    → IsFaithful d s
    → IsTotal expected total
    → landed d close_fails total s ≡ ok p
    → IsLanded d expected p
landed-IsLanded d true expected total s p h t e = cc
landed-IsLanded d false expected total s p h t e =
    elim (if-cases (is_short total (length s.file)) (err short_download) _ (ok p) e) [
      | inl (_, k) ↦ cc
      | inr (b, k) ↦
          let q : (s.file, d.sha256 s.hashed) ≡ p = cc in
          subst (IsLanded d expected) q (record {
            hash_matches_file = ap d.sha256 h.same;
            within = h.bound;
            is_whole = λ n x.
                long_enough n (length s.file)
                  (subst (λ y. is_short y (length s.file) ≡ false) (t n x) b);
          })
    ]

attempted-IsLanded :
    (d : Downloader) (close_fails : Bool) (expected : ℤ) (stopped : Bool)
    (next : Text → Result DownloadError (Text × Text))
    (r : Text × Result DownloadError (ℤ × Staged)) (p : Text × Text)
    → IsAttempt d expected r
    → ((file : Text) → length file ≤ byte_limit d → next file ≡ ok p → IsLanded d expected p)
    → attempted d close_fails stopped next r ≡ ok p
    → IsLanded d expected p
attempted-IsLanded d close_fails expected stopped next (file, ok (total, s)) p a ih h =
    landed-IsLanded d close_fails expected total s p a.0 a.1 h
attempted-IsLanded d close_fails expected stopped next (file, err e) p a ih h =
    elim (if-cases stopped (err canceled) (next file) (ok p) h) [
      | inl (_, k) ↦ cc
      | inr (_, k) ↦ ih file a k
    ]

module _ (d : Downloader) (close_fails : Bool) (expected : ℤ) (answers : ℕ → Answer)
    (before after : ℕ → Bool) where
  fetch_from-IsLanded :
      (tries n : ℕ) (file : Text) (p : Text × Text)
      → length file ≤ byte_limit d
      → fetch_from d close_fails expected answers before after tries n file ≡ ok p
      → IsLanded d expected p
  unfolding fetch_from
  fetch_from-IsLanded zero n file p b h = cc
  fetch_from-IsLanded (suc tries) n file p b h =
      elim (if-cases (before n) (err canceled) _ (ok p) h) [
        | inl (_, k) ↦ cc
        | inr (_, k) ↦
            attempted-IsLanded d close_fails expected (after n)
              (fetch_from d close_fails expected answers before after tries (suc n))
              (attempt d expected file (answers n)) p
              (attempt-IsAttempt d expected file (answers n) b)
              (λ left c e. fetch_from-IsLanded tries (suc n) left p c e) k
      ]

  -- Whatever each attempt meets, resumed or not: when `Fetch` returns a file, the hash that it reports is
  -- the SHA-256 of just that file; the file has no more bytes than the cap, and as many as expected, when a
  -- positive size is expected.
  pub fetch-IsLanded :
      (staging_fails : Bool) (p : Text × Text)
      → fetch d staging_fails close_fails expected answers before after ≡ ok p
      → IsLanded d expected p
  unfolding fetch
  fetch-IsLanded true p h = cc
  fetch-IsLanded false p h = fetch_from-IsLanded max_retries 0 [] p (omega arith) h
