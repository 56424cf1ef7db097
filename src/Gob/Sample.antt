-- ===== src/Gob/Sample.antt =====
-- A server that hands a history out in full pages, as a concrete instance of Gitiles.
use cos_tools.Base.{
  ℕ, zero, suc, ◌+◌, false, none, some, List, [], ◌∷◌, length, take, drop, ◌≡◌, refl, ap, ltb,
  if◌then◌else◌, arith,
}
use cos_tools.Base.Outcome.{done, fail}
use cos_tools.Text.{Bytes, codes}
use cos_tools.Gob.Commits.{Commit, LogResponse, Gitiles, next_commits, is_blank}
use cos_tools.Gob.Commits.Pages.{Serves}

-- A commit of which only the name and the time matter.
abbrev pub commit : Bytes → ℕ → Commit
commit id time = record {
  id = id;
  author = some (codes "an author");
  committer = some time;
  committer_name = codes "a committer";
  message = codes "a message";
}

-- The tokens are as long as the number of the next commit, and one more.
unfoldable pub token : ℕ → Bytes
token zero = b'x' ∷ []
token (suc n) = b'x' ∷ token n

unfoldable pub position : Bytes → ℕ
position [] = 0
position (c ∷ t) = length t

length-token : (n : ℕ) → length (token n) ≡ suc n
unfolding token
length-token zero = refl
length-token (suc n) = ap suc (length-token n)

position-token : (n : ℕ) → position (token n) ≡ n
unfolding position token
position-token zero = refl
position-token (suc n) = length-token n

is_blank-token : (n : ℕ) → is_blank (token n) ≡ false
unfolding token
is_blank-token zero = refl
is_blank-token (suc n) = refl

module _ (history : List Commit) where
  unfoldable pub answer : ℕ → ℕ → LogResponse
  answer n size = record {
    log = take size (drop n history);
    next_page_token = if ltb (n + size) (length history) then token (n + size) else [];
  }

  abbrev pub paged_server : Gitiles
  paged_server = record {
    get_log = λ r. done (answer (position r.page_token) r.page_size);
    download_file = λ _. fail none;
  }

  first_page :
      (repo committish ancestor : Bytes) (size : ℕ)
      → next_commits paged_server repo committish ancestor [] size
        ≡ done (record {
          log = take size history;
          next_page_token = if ltb size (length history) then token size else [];
        })
  unfolding next_commits position answer
  first_page repo committish ancestor size =
      let same : 0 + size ≡ size = omega arith in rw same refl

  pub paged_server-Serves :
      (repo committish ancestor : Bytes) → Serves paged_server repo committish ancestor history
  unfolding next_commits position answer token
  paged_server-Serves repo committish ancestor = record {
    token = token;
    token_lem = λ n. is_blank-token n;
    first_lem = λ size h. first_page repo committish ancestor size;
    later_lem = λ n size h. ap (λ k. done (answer k size)) (position-token n);
  }
