-- ===== src/Update/Downloader/Tests.antt =====
-- A download that is resumed.
use connective.Prelude.{ℕ, zero, suc, Bool, true, false, some, codes, ok, ◌≡◌, refl}
use connective.Prelude.Int.{pos}
use connective.Update.Downloader.{
  Downloader, byte_limit, gives, breaks, ends, Answer, whole, partial, attempt, copy_source,
  fetch_from, fetch,
}
use connective.Update.Downloader.Whole.{IsLanded, fetch-IsLanded}

abbrev downloader : Downloader
downloader = record { max_bytes = 10; goes_on = λ done total. true; sha256 = λ bytes. bytes }

-- The first body breaks off; the second continues it.
abbrev answers : ℕ → Answer
answers zero = whole (pos 4) (gives (codes "ab") breaks)
answers (suc n) = partial (some (pos 4)) (gives (codes "cd") ends)

abbrev never : ℕ → Bool
never n = false

resumed : fetch downloader false false (pos 4) answers never never ≡ ok (codes "abcd", codes "abcd")
unfolding fetch fetch_from attempt copy_source byte_limit
resumed = refl

fetch-IsLanded_example : IsLanded downloader (pos 4) (codes "abcd", codes "abcd")
fetch-IsLanded_example =
    fetch-IsLanded downloader false (pos 4) answers never never false (codes "abcd", codes "abcd")
      resumed
