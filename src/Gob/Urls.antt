-- ===== src/Gob/Urls.antt =====
-- The URL of the Gerrit instance that belongs to one of Gitiles (function CreateGerritURL of
-- pkg/utils/gobutils.go).
use cos_tools.Base.{Option, none, some, List, [], ◌∷◌, ◌++◌}
use cos_tools.Text.{Bytes, codes}

-- What `FindStringSubmatch` of the package regexp returns for a pattern and a text: the match and
-- its groups, in order.
abbrev pub Matcher : Type 0
Matcher = (pattern text : Bytes) → Option (List Bytes)

abbrev pub last : List Bytes → Option Bytes
last [] = none
last (x ∷ []) = some x
last (x ∷ y ∷ ys) = last (y ∷ ys)

abbrev last_group : Option (List Bytes) → Option Bytes
last_group none = none
last_group (some ss) = last ss

abbrev review_url : Option Bytes → Option Bytes
review_url none = none
review_url (some host) = some (codes "https://" ++ host ++ codes "-review.googlesource.com")

module _ (find_submatch : Matcher) where
  unfoldable pub create_gerrit_url : Bytes → Option Bytes
  create_gerrit_url gitiles_host_url =
      review_url
        (last_group (find_submatch (codes "(.+://)?(.+?).googlesource.com") gitiles_host_url))
