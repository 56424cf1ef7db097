-- ===== src/Gob/Manifest.antt =====
-- The manifest of a build, as far as the build finder and the change log read it: the remotes and
-- the projects of the XML document (pkg/findbuild/findbuild.go and pkg/changelog/changelog.go).
use cos_tools.Base.{ℕ, suc, Option, none, some, List, [], ◌∷◌, drop, if◌then◌else◌}
use cos_tools.Base.Outcome.{Outcome, done, ◌>>=◌, or_panic}
use cos_tools.Text.{Bytes, codes, has_prefix}
use cos_tools.Maps.{Table, lookup, store}

-- The attributes of an XML element.
abbrev pub Tag : Type 0
Tag = Table Bytes

-- What the package etree selects below the element `manifest`.
pub record Document : Type 0 where
  pub remotes : List Tag
  pub default_tag : Option Tag
  pub projects : List Tag

-- `ReadFromString` and `SelectElement("manifest")`: `none` where the text is not well formed, and
-- inside it where there is no such element.
abbrev pub XmlReader : Type 0
XmlReader = Bytes → Option (Option Document)

-- `strings.Replace(s, old, "", 1)`
unfoldable pub remove_first : Bytes → Bytes → Bytes
remove_first old [] = []
remove_first old (c ∷ s) =
    let rest = remove_first old s in
    if has_prefix old (c ∷ s) then drop (count old) (c ∷ s) else c ∷ rest
  where
    count : Bytes → ℕ
    count [] = 0
    count (x ∷ t) = suc (count t)

abbrev pub or_text : Bytes → Option Bytes → Bytes
or_text default none = default
or_text default (some v) = v

-- `SelectAttr(name).Value`: a missing attribute is a nil pointer.
abbrev pub attr : {E : Type 0} → Bytes → Tag → Outcome E Bytes
attr name tag = or_panic (lookup name tag)

-- `SelectAttrValue(name, "")`
abbrev pub attr_value : Bytes → Tag → Bytes
attr_value name tag = or_text [] (lookup name tag)

-- A read of a map of strings.
abbrev pub get : Bytes → Table Bytes → Bytes
get key m = or_text [] (lookup key m)

abbrev pub add_default : Tag → Table Bytes → Table Bytes
add_default default_tag remote_map = by_name (lookup (codes "remote") default_tag)
  where
    by_name : Option Bytes → Table Bytes
    by_name none = remote_map
    by_name (some name) = store [] (get name remote_map) remote_map

module _ {E : Type 0} where
  unfoldable pub map_remotes : List Tag → Table Bytes → Outcome E (Table Bytes)
  map_remotes [] remote_map = done remote_map
  map_remotes (remote ∷ remotes) remote_map = do
    fetch ← attr (codes "fetch") remote
    name ← attr (codes "name") remote
    map_remotes remotes (store name (remove_first (codes "https://") fetch) remote_map)

  -- The URL of each remote by its name, that of the default remote by the empty name.
  unfoldable pub remote_urls : Document → Outcome E (Table Bytes)
  remote_urls root = do
    remote_map ← map_remotes root.remotes []
    default_tag ← or_panic root.default_tag
    done (add_default default_tag remote_map)
