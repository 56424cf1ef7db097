-- ===== src/Changelog/Messages.antt =====
-- What the change log shows of a commit (pkg/changelog/gitcommit.go).
use cos_tools.Base.{ℕ, Option, none, some, List, [], ◌∷◌, ◌++◌, length, drop, ◌==◌, if◌then◌else◌}
use cos_tools.Text.{Bytes, codes, has_prefix, split, trim_space}
use cos_tools.Gob.Commits.{Commit}

-- The type Commit.
pub record ShownCommit : Type 0 where
  pub sha : Bytes
  pub author_name : Bytes
  pub committer_name : Bytes
  pub subject : Bytes
  pub bugs : List Bytes
  pub release_note : Bytes
  pub commit_time : Bytes

abbrev pub bug_line_prefix : Bytes
bug_line_prefix = codes "BUG="

abbrev pub release_note_line_prefix : Bytes
release_note_line_prefix = codes "RELEASE_NOTE="

-- What a pattern of `bugPatternToReplacement` leaves of a bug behind its match, if it matches: a
-- prefix, or a prefix with all up to the last colon.
unfoldable pub behind_prefix : Bytes → Bytes → Option Bytes
behind_prefix prefix bug = if has_prefix prefix bug then some (drop (length prefix) bug) else none

unfoldable pub behind_last_colon : Bytes → Option Bytes
behind_last_colon [] = none
behind_last_colon (c ∷ s) = or_here (behind_last_colon s)
  where
    or_here : Option Bytes → Option Bytes
    or_here (some rest) = some rest
    or_here none = if c == b':' then some s else none

abbrev pub colon_behind : Option Bytes → Option Bytes
colon_behind none = none
colon_behind (some rest) = behind_last_colon rest

abbrev pub add_bug : Bytes → Option Bytes → List Bytes
add_bug replacement none = []
add_bug replacement (some rest) = (replacement ++ rest) ∷ []

-- The patterns exclude each other, so their order is of no account.
unfoldable pub bug_link : Bytes → List Bytes
bug_link bug =
    add_bug (codes "b/") (behind_prefix (codes "b/") bug)
    ++ add_bug (codes "b/") (behind_prefix (codes "b:") bug)
    ++ add_bug (codes "crbug/") (colon_behind (behind_prefix (codes "chromium") bug))
    ++ add_bug (codes "crbug/") (colon_behind (behind_prefix (codes "chrome") bug))

-- The first line with a prefix, its blanks trimmed, behind the prefix; empty where there is none.
unfoldable pub first_line_with : Bytes → List Bytes → Bytes
first_line_with prefix [] = []
first_line_with prefix (line ∷ lines) =
    let rest = first_line_with prefix lines in
    if has_prefix prefix (trim_space line) then drop (length prefix) (trim_space line) else rest

abbrev pub lines_of : Commit → List Bytes
lines_of commit = split commit.message 10

unfoldable pub bug_links : List Bytes → List Bytes
bug_links [] = []
bug_links (bug ∷ bug_list) = bug_link (trim_space bug) ++ bug_links bug_list

-- Of the text behind `BUG=`.
abbrev pub bugs_in : Bytes → List Bytes
bugs_in [] = []
bugs_in (c ∷ s) = bug_links (split (c ∷ s) b',')

unfoldable pub bugs : Commit → List Bytes
bugs commit = bugs_in (first_line_with bug_line_prefix (lines_of commit))

unfoldable pub release_note : Commit → Bytes
release_note commit = first_line_with release_note_line_prefix (lines_of commit)

abbrev pub first_line : List Bytes → Bytes
first_line [] = []
first_line (line ∷ _) = line

unfoldable pub subject : Commit → Bytes
subject commit = first_line (lines_of commit)

abbrev pub name_or_none : Option Bytes → Bytes
name_or_none none = codes "None"
name_or_none (some name) = name

-- `format_time` is `Format("Mon, 2 Jan 2006")`.
module _ (format_time : ℕ → Bytes) where
  abbrev pub commit_time : Option ℕ → Bytes
  commit_time none = codes "None"
  commit_time (some time) = format_time time

  abbrev pub committer : Bytes → Option ℕ → Bytes
  committer name none = codes "None"
  committer name (some time) = name

  unfoldable pub parse_git_commit : Commit → ShownCommit
  parse_git_commit commit = record {
    sha = commit.id;
    author_name = name_or_none commit.author;
    committer_name = committer commit.committer_name commit.committer;
    subject = subject commit;
    bugs = bugs commit;
    release_note = release_note commit;
    commit_time = commit_time commit.committer;
  }

  unfoldable pub parse_git_commit_log : List Commit → List ShownCommit
  parse_git_commit_log [] = []
  parse_git_commit_log (commit ∷ commits) = parse_git_commit commit ∷ parse_git_commit_log commits
