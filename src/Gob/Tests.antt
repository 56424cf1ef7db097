-- ===== src/Gob/Tests.antt =====
-- The theorems about the Gitiles and Gerrit clients at concrete inputs.
use cos_tools.Base.{false, List, [], ◌∷◌, length, take, ◌≡◌, ltb, arith}
use cos_tools.Base.Outcome.{done}
use cos_tools.Text.{Bytes, codes}
use cos_tools.Gob.Commits.{Commit, at_most, unlimited, commits}
use cos_tools.Gob.Commits.Pages.{commits_unlimited, commits_at_most}
use cos_tools.Gob.Sample.{commit, paged_server, paged_server-Serves}

abbrev history : List Commit
history = commit (codes "c") 300 ∷ commit (codes "b") 200 ∷ commit (codes "a") 100 ∷ []

abbrev repo : Bytes
repo = codes "cos/manifest-snapshots"

abbrev head : Bytes
head = codes "refs/heads/master"

commits_unlimited_example :
    commits 4 (paged_server history) repo head [] unlimited ≡ done (history, false)
commits_unlimited_example =
    commits_unlimited (paged_server history) repo head [] (paged_server-Serves history repo head [])
      4 (omega arith)

commits_at_most_example :
    commits 3 (paged_server history) repo head [] (at_most 2)
    ≡ done (take 2 history, ltb 2 (length history))
commits_at_most_example =
    commits_at_most (paged_server history) repo head [] (paged_server-Serves history repo head []) 3
      2 (omega arith) (omega arith)
