-- ===== src/Gob/Commits.antt =====
-- Retrieving commits page by page (function Commits of pkg/utils/gobutils.go).
pub mod Pages
use cos_tools.Base.{
  ℕ, zero, suc, ◌-◌, ◌*◌, Bool, true, false, ◌||◌, ◌&&◌, not, Option, none, some, List, [], ◌∷◌,
  ◌++◌, ltb, leb, if◌then◌else◌,
}
use cos_tools.Base.Outcome.{Outcome, stuck, fail, done, ◌>>=◌}
use cos_tools.Text.{Bytes, codes}
use cos_tools.Gob.Errors.{GoError}

-- `author` is the name of the author, where the commit names one; `committer` the time of the commit,
-- and `committer_name` the name, where it names a committer. Times are in nanoseconds since the start
-- of the year 1.
pub record Commit : Type 0 where
  pub id : Bytes
  pub author : Option Bytes
  pub committer : Option ℕ
  pub committer_name : Bytes
  pub message : Bytes

pub record LogRequest : Type 0 where
  pub repo : Bytes
  pub committish : Bytes
  pub ancestor : Bytes
  pub page_token : Bytes
  pub page_size : ℕ

pub record LogResponse : Type 0 where
  pub log : List Commit
  pub next_page_token : Bytes

pub record FileRequest : Type 0 where
  pub project : Bytes
  pub committish : Bytes
  pub path : Bytes

-- An instance of Gitiles: what it answers to a request for commits, and to one for the contents of
-- a file. It does not change while it is read.
pub record Gitiles : Type 0 where
  pub get_log : LogRequest → Outcome GoError LogResponse
  pub download_file : FileRequest → Outcome GoError Bytes

unfoldable pub download_manifest :
    Gitiles → (manifest_repo build_num : Bytes) → Outcome GoError Bytes
download_manifest client manifest_repo build_num = client.download_file (record {
  project = manifest_repo;
  committish = codes "refs/tags/" ++ build_num;
  path = codes "snapshot.xml";
})

-- The argument `querySize`: a number, -1 for all commits, or less than that.
pub data QuerySize : Type 0 where
  at_most : ℕ → QuerySize
  unlimited : QuerySize
  below : QuerySize

abbrev pub default_page_size : ℕ
default_page_size = 100

abbrev pub max_page_size : ℕ
max_page_size = 10000

unfoldable pub limit_page_size : ℕ → ℕ → Bool → ℕ
limit_page_size page_size query_size no_limit =
    let size = if ltb max_page_size page_size then max_page_size else page_size in
    if no_limit || leb size query_size then size else query_size

abbrev pub is_blank : Bytes → Bool
is_blank [] = true
is_blank (_ ∷ _) = false

abbrev pub grow : ℕ → ℕ
grow page_size = if ltb page_size max_page_size then page_size * 5 else page_size

module _ (client : Gitiles) (repo committish ancestor : Bytes) where
  unfoldable pub next_commits : Bytes → ℕ → Outcome GoError LogResponse
  next_commits next_token page_size = client.get_log (record {
    repo = repo;
    committish = committish;
    ancestor = ancestor;
    page_token = next_token;
    page_size = page_size;
  })

module _ (client : Gitiles) (repo committish ancestor : Bytes) (no_limit : Bool) where
  -- The loop behind the first page. `query_size` is what is left to ask for; it counts only where
  -- there is a limit.
  unfoldable pub more_commits :
      ℕ → ℕ → ℕ → List Commit → Bytes → Outcome GoError (List Commit × Bool)
  more_commits zero query_size page_size commits token = stuck
  more_commits (suc fuel) query_size page_size commits token =
      let again = λ (response : LogResponse) (size : ℕ).
        more_commits fuel (query_size - size) size (commits ++ response.log)
          response.next_page_token in
      if (no_limit || ltb 0 query_size) && not (is_blank token)
      then (let size = limit_page_size (grow page_size) query_size no_limit in
          next_commits client repo committish ancestor token size >>= λ response.
          again response size)
      else done (commits, not (is_blank token))

  unfoldable pub commits_from : ℕ → ℕ → Outcome GoError (List Commit × Bool)
  commits_from fuel query_size = do
    let page_size = limit_page_size default_page_size query_size no_limit
    response ← next_commits client repo committish ancestor [] page_size
    if is_blank response.next_page_token
        then done (response.log, false)
        else more_commits fuel (query_size - page_size) page_size response.log
            response.next_page_token

unfoldable pub commits :
    ℕ
    → Gitiles
    → (repo committish ancestor : Bytes) → QuerySize
    → Outcome GoError (List Commit × Bool)
commits fuel client repo committish ancestor below = fail none
commits fuel client repo committish ancestor unlimited =
    commits_from client repo committish ancestor true fuel 0
commits fuel client repo committish ancestor (at_most query_size) =
    commits_from client repo committish ancestor false fuel query_size
