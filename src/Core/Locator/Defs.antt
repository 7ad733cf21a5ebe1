-- ===== src/Core/Locator/Defs.antt =====
-- crates/denju-core/src/locator.rs: the names `@owner/name` and `@owner/packs/name`.
use denju.Base.{Bool, false, not, ◌&&◌, List, [], ◌∷◌, ◌++◌, if◌then◌else◌, nat_eq}
use denju.Base.{◌==◌, text_Eq, any, Text, lit, split_at, strip_prefix, has_char}
use denju.Base.{Result, ok, err, ◌>>=◌, ◌>>◌, ok_or, map_err, reject}
use denju.Core.Unicode.{Unicode}
use denju.Core.PortablePath.{parse, PortablePath, PortablePathError, component_count, slash}
use denju.Core.Skill.{validate_skill_name}

pub data ResourceKind : Type 0 where
  skill pack : ResourceKind

pub record ResourceLocator : Type 0 where
  pub owner : Text
  pub name : Text
  pub kind : ResourceKind

pub data LocatorError : Type 0 where
  missing_at_sign invalid_shape invalid_namespace invalid_resource_name : LocatorError

abbrev pub single_component : Result PortablePathError PortablePath → Bool
single_component (ok path) = nat_eq (component_count path) 1
single_component (err e) = false

unfoldable pub is_lowercase_portable_segment : Unicode → Text → Bool
is_lowercase_portable_segment u value =
    not (has_char b'@' value) && not (any u.is_uppercase value) && single_component (parse u value)

unfoldable pub validate_namespace_segment : Unicode → Text → Result LocatorError Unit
validate_namespace_segment u value =
    reject (not (is_lowercase_portable_segment u value)) invalid_namespace

unfoldable pub validate_pack_name : Unicode → Text → Result LocatorError Unit
validate_pack_name u value =
    reject (not (is_lowercase_portable_segment u value)) invalid_resource_name

unfoldable pub validate_name : Unicode → ResourceKind → Text → Result LocatorError Unit
validate_name u skill name = map_err (λ e. invalid_resource_name) (validate_skill_name name)
validate_name u pack name = validate_pack_name u name

-- The match on the segments after the sign.
unfoldable pub read_segments : List Text → Result LocatorError (Text × ResourceKind × Text)
read_segments (owner ∷ name ∷ []) = ok (owner, skill, name)
read_segments (owner ∷ packs ∷ name ∷ []) =
    if packs == lit "packs" then ok (owner, pack, name) else err invalid_shape
read_segments segments = err invalid_shape

-- `FromStr`
unfoldable pub locator_from_str : Unicode → Text → Result LocatorError ResourceLocator
locator_from_str u value = do
  rest ← ok_or (strip_prefix (lit "@") value) missing_at_sign
  (owner, kind, name) ← read_segments (split_at slash rest)
  validate_namespace_segment u owner
  validate_name u kind name
  ok (record { owner = owner; name = name; kind = kind })

unfoldable pub display_kind : ResourceKind → Text
display_kind skill = lit "/"
display_kind pack = lit "/packs/"

-- `Display`
unfoldable pub display : ResourceLocator → Text
unfolding display_kind
display locator = lit "@" ++ (locator.owner ++ (display_kind locator.kind ++ locator.name))
