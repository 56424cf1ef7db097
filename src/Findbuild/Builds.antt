-- ===== src/Findbuild/Builds.antt =====
-- The build numbers of candidate commits (functions repoTags and candidateBuildNums of
-- pkg/findbuild/findbuild.go).
use cos_tools.Base.{List, [], ◌∷◌, length, drop, leb}
use cos_tools.Base.Outcome.{Outcome, done, ◌>>=◌, ◌>>◌, or_else, fail_if}
use cos_tools.Text.{Bytes}
use cos_tools.Maps.{Table, lookup, store}
use cos_tools.Gob.Errors.{ChangelogError, internal_server_error}
use cos_tools.Gob.Commits.{Commit}

-- A tag as Gerrit lists it; `object` is empty where the tag is not annotated.
pub record TagInfo : Type 0 where
  pub ref : Bytes
  pub revision : Bytes
  pub object : Bytes

abbrev pub commit_sha : TagInfo → Bytes
commit_sha tag = or_object tag.object
  where
    or_object : Bytes → Bytes
    or_object [] = tag.revision
    or_object (c ∷ s) = c ∷ s

unfoldable pub tags_of : List TagInfo → Table Bytes → Table Bytes
tags_of [] tags = tags
tags_of (tag ∷ tag_infos) tags = tags_of tag_infos (store tag.ref (commit_sha tag) tags)

-- The map of the tags, turned around: the tags come in the order of the list, where Go has none.
unfoldable pub turn_around : Table Bytes → Table Bytes → Table Bytes
turn_around [] git_tags_map = git_tags_map
turn_around ((tag_ref, manifest_sha) ∷ tags) git_tags_map =
    turn_around tags (store manifest_sha tag_ref git_tags_map)

unfoldable pub build_num_of : Table Bytes → Commit → Outcome ChangelogError Bytes
build_num_of git_tags_map commit = do
  tag ← or_else internal_server_error (lookup commit.id git_tags_map)
  fail_if (leb (length tag) 10) internal_server_error
  done (drop 10 tag)

unfoldable pub build_nums_of : Table Bytes → List Commit → Outcome ChangelogError (List Bytes)
build_nums_of git_tags_map [] = done []
build_nums_of git_tags_map (commit ∷ commits) = do
  build_num ← build_num_of git_tags_map commit
  output ← build_nums_of git_tags_map commits
  done (build_num ∷ output)

unfoldable pub candidate_build_nums :
    List Commit → Table Bytes → Outcome ChangelogError (List Bytes)
candidate_build_nums manifest_commits tags = build_nums_of (turn_around tags []) manifest_commits
