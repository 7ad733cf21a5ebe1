-- ===== src/Tests/PortablePath.antt =====
-- Portable paths, links and trees at concrete inputs.
use native.Mathlib.Decide.{ℕ_discrete}
use mathlib.Core.List.{Perm, reverse, flat_map}
use denju.Base.{
  ◌≡◌, ◌≢◌, refl, List, [], ◌∷◌, some, none, lit, Text, ok, err, Result, text_discrete, ◌==◌,
}
use denju.Base.{
  split_at, starts_with, last, ends_with_char, has_char, strip_prefix, any, contains, join,
  insert_by, sort_by, list_cmp,
}
use denju.Base.Strings.Map
use denju.Core.PortablePath
use denju.Core.PortablePath.{
  PortablePath, PortablePathError, PortableEntry, PortableEntryKind, PortableTree,
  PortableTreeError, parse, validate_portable_tree, validate_symlink_target, components, slash,
  escaping_symlink, case_collision, missing_parent_directory,
}
use denju.Core.PortablePath.Links.{
  walk, holders, validate_symlink_target-walk, validate_symlink_target-escape,
}
use denju.Core.PortablePath.Valid.{IsValidTree, validate_portable_tree-IsValidTree}
use denju.Core.PortablePath.Paths.{parse-walk}
use denju.Tests.Tables.{ascii}

run_parse : Text → Result PortablePathError PortablePath
unfolding parse PortablePath.validate_portable_path PortablePath.validate_components
    PortablePath.validate_component PortablePath.is_windows_reserved_name
    PortablePath.is_invalid_windows_character ◌==◌ text_discrete ℕ_discrete split_at starts_with
    last ends_with_char has_char strip_prefix any contains
run_parse = parse ascii

refused :
    (run_parse (lit "a/../b") ≡ err PortablePathError.invalid_component)
    × (run_parse (lit "/absolute") ≡ err PortablePathError.not_relative)
    × (run_parse (lit "aux.txt") ≡ err PortablePathError.windows_reserved_name)
    × (run_parse (lit "name.") ≡ err PortablePathError.trailing_dot_or_space)
    × (run_parse (lit "a:b") ≡ err PortablePathError.invalid_character)
unfolding run_parse
refused = (refl, refl, refl, refl, refl)

abbrev tool : PortablePath
tool = record { as_str = lit "scripts/tool" }

tool_is_accepted : parse ascii (lit "scripts/tool") ≡ ok tool
unfolding run_parse
tool_is_accepted = refl

parse-walk_example :
    (tool.as_str ≡ lit "scripts/tool")
    × (lit "scripts/tool" ≡ lit "scripts/tool")
    × (walk [] (components tool) ≡ some (reverse (components tool)))
parse-walk_example = parse-walk ascii (lit "scripts/tool") tool tool_is_accepted

run_link : Text → Result PortableTreeError Unit
unfolding run_parse validate_symlink_target PortablePath.follow_target PortablePath.component_count
run_link = validate_symlink_target ascii tool

shared_is_accepted : validate_symlink_target ascii tool (lit "../shared") ≡ ok tt
unfolding run_link
shared_is_accepted = refl

validate_symlink_target-walk_example : walk (holders tool) (split_at slash (lit "../shared")) ≢ none
validate_symlink_target-walk_example =
    validate_symlink_target-walk ascii tool (lit "../shared") shared_is_accepted

outside_is_refused :
    validate_symlink_target ascii tool (lit "../../x")
    ≡ err (escaping_symlink tool.as_str (lit "../../x"))
unfolding run_link
outside_is_refused = refl

validate_symlink_target-escape_example : walk (holders tool) (split_at slash (lit "../../x")) ≡ none
validate_symlink_target-escape_example =
    validate_symlink_target-escape ascii tool (lit "../../x") outside_is_refused

abbrev scripts : PortableEntry
scripts = record { path = record { as_str = lit "scripts" }; kind = PortableEntryKind.directory }

abbrev link : PortableEntry
link = record { path = tool; kind = PortableEntryKind.symlink (lit "../shared/tool") }

run_tree : List PortableEntry → Result PortableTreeError PortableTree
unfolding run_parse validate_portable_tree validate_symlink_target PortablePath.check_entries
    PortablePath.check_link PortablePath.follow_target
    PortablePath.ensure_parent_components_are_directories PortablePath.ensure_parents
    PortablePath.collect_kinds PortablePath.fold_case PortablePath.entry_class
    PortablePath.component_count join insert_by sort_by list_cmp Map.get Map.insert
run_tree = validate_portable_tree ascii

orphan_is_refused :
    run_tree (link ∷ []) ≡ err (missing_parent_directory (lit "scripts") (lit "scripts/tool"))
unfolding run_tree flat_map
orphan_is_refused = refl

tree_is_accepted :
    validate_portable_tree ascii (link ∷ scripts ∷ [])
    ≡ ok (record { entries = scripts ∷ link ∷ [] })
unfolding run_tree flat_map
tree_is_accepted = refl

validate_portable_tree-IsValidTree_example :
    IsValidTree ascii (scripts ∷ link ∷ []) × Perm (scripts ∷ link ∷ []) (link ∷ scripts ∷ [])
validate_portable_tree-IsValidTree_example =
    validate_portable_tree-IsValidTree ascii (link ∷ scripts ∷ [])
      (record { entries = scripts ∷ link ∷ [] }) tree_is_accepted
