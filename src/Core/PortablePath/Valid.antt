-- ===== src/Core/PortablePath/Valid.antt =====
-- What `validate_portable_tree` promises of a tree that it accepts.
use mathlib.Core.List.{Perm}
use denju.Base.{ℕ, ◌-◌, ◌≤◌, ◌<◌, ◌≡◌, ◌≢◌, true, arith}
use denju.Base.{none, List, [], ◌∷◌, map, text_Eq, nat_Eq, length, take}
use denju.Base.{
  split_at, join, ok, >>=-eq-ok, All, All-imp, IsSorted, IsDistinct, IsSorted-sort_by, Perm-sort_by,
  sort_by,
}
use denju.Base.{by_key-IsLawful, text_cmp-IsLawful, inl, inr}
use denju.Base.Strings.Map
use denju.Base.Strings.Map.{Map, get-insert}
use denju.Core.Unicode.{Unicode}
use denju.Core.PortablePath.Path.{PortablePath, components, slash}
use denju.Core.PortablePath.Links.{walk, holders, validate_symlink_target-walk}
use denju.Core.PortablePath.Tree.{
  PortableEntry, PortableEntryKind, PortableTree, EntryClass, collect_kinds,
  ensure_parent_components_are_directories, check_link, check_entries, entry_cmp,
  validate_portable_tree,
}
use denju.Core.PortablePath.Kinds.{
  has_directory, folded, collect_kinds-IsDistinct, collect_kinds-directory,
  ensure_parents-directory,
}

-- Every proper prefix of the entry's path is the path of a directory of the tree.
abbrev pub HasParents : List PortableEntry → PortableEntry → Type 0
HasParents entries e =
    (n : ℕ)
    → 1 ≤ n
    → n < length (components e.path)
    → has_directory entries (join slash (take n (components e.path))) ≡ true

-- A link leads nowhere out of the root.
abbrev pub IsContained : PortablePath → PortableEntryKind → Type 0
IsContained path (PortableEntryKind.file executable) = Unit
IsContained path PortableEntryKind.directory = Unit
IsContained path (PortableEntryKind.symlink target) =
    walk (holders path) (split_at slash target) ≢ none

pub record IsValidTree (u : Unicode) (entries : List PortableEntry) : Type 0 where
  pub sorted : IsSorted (entry_cmp u) entries
  pub distinct : IsDistinct (map (folded u) entries)
  pub parents : All (HasParents entries) entries
  pub links : All (λ e. IsContained e.path e.kind) entries

check_link-IsContained :
    (u : Unicode) (path : PortablePath) (kind : PortableEntryKind)
    → check_link u path kind ≡ ok tt
    → IsContained path kind
unfolding check_link
check_link-IsContained u path (PortableEntryKind.file executable) h = tt
check_link-IsContained u path PortableEntryKind.directory h = tt
check_link-IsContained u path (PortableEntryKind.symlink target) h =
    validate_symlink_target-walk u path target h

check_entries-step :
    (u : Unicode) (kinds : Map EntryClass) (e : PortableEntry) (es : List PortableEntry)
    → check_entries u kinds (e ∷ es) ≡ ok tt
    → (ensure_parent_components_are_directories e.path kinds ≡ ok tt)
      × (check_link u e.path e.kind ≡ ok tt)
      × (check_entries u kinds es ≡ ok tt)
unfolding check_entries
check_entries-step u kinds e es h = ground arith

abbrev Checked : Map EntryClass → PortableEntry → Type 0
Checked kinds e =
    (ensure_parent_components_are_directories e.path kinds ≡ ok tt) × IsContained e.path e.kind

check_entries-All :
    (u : Unicode) (kinds : Map EntryClass) (es : List PortableEntry)
    → check_entries u kinds es ≡ ok tt
    → All (Checked kinds) es
check_entries-All u kinds [] h = tt
check_entries-All u kinds (e ∷ es) h =
    let (parents, link, rest) = check_entries-step u kinds e es h in
    ((parents, check_link-IsContained u e.path e.kind link), check_entries-All u kinds es rest)

Checked-HasParents :
    (u : Unicode) (entries : List PortableEntry) (kinds : Map EntryClass) (e : PortableEntry)
    → collect_kinds u [] [] entries ≡ ok kinds
    → ensure_parent_components_are_directories e.path kinds ≡ ok tt
    → HasParents entries e
unfolding ensure_parent_components_are_directories
Checked-HasParents u entries kinds e h k n low high =
    let found =
      ensure_parents-directory kinds e.path.as_str (components e.path) 1
        (length (components e.path) - 1) k n low (omega arith) in
    elim (collect_kinds-directory u [] [] kinds entries _ h found) [
      | inl q ↦ absurd (unfold Map.get in cc q)
      | inr q ↦ q
    ]

validated :
    (u : Unicode) (entries : List PortableEntry) (kinds : Map EntryClass)
    → collect_kinds u [] [] entries ≡ ok kinds
    → check_entries u kinds entries ≡ ok tt
    → IsSorted (entry_cmp u) entries
    → IsValidTree u entries
validated u entries kinds h k s =
    let checked = check_entries-All u kinds entries k in
    record {
      sorted = s;
      distinct = collect_kinds-IsDistinct u [] [] kinds entries h;
      parents = All-imp (λ e c. Checked-HasParents u entries kinds e h c.0) entries checked;
      links = All-imp (λ e c. c.1) entries checked;
    }

validate_portable_tree-parts :
    (u : Unicode) (unsorted : List PortableEntry) (tree : PortableTree)
    → validate_portable_tree u unsorted ≡ ok tree
    → (kinds : Map EntryClass) × (tree.entries ≡ sort_by (entry_cmp u) unsorted)
      × (collect_kinds u [] [] (sort_by (entry_cmp u) unsorted) ≡ ok kinds)
      × (check_entries u kinds (sort_by (entry_cmp u) unsorted) ≡ ok tt)
unfolding validate_portable_tree
validate_portable_tree-parts u unsorted tree h =
    let (kinds, collected, rest) =
      >>=-eq-ok (collect_kinds u [] [] (sort_by (entry_cmp u) unsorted)) _ h in
    (kinds, ground arith, collected, ground arith)

-- An accepted tree has the given entries in ascending order of their paths. No two paths agree when
-- case is ignored, every proper prefix of a path is a directory of the tree, and no link leaves the
-- root.
pub validate_portable_tree-IsValidTree :
    (u : Unicode) (unsorted : List PortableEntry) (tree : PortableTree)
    → validate_portable_tree u unsorted ≡ ok tree
    → IsValidTree u tree.entries × Perm tree.entries unsorted
validate_portable_tree-IsValidTree u unsorted tree h =
    let (kinds, same, collected, checked) = validate_portable_tree-parts u unsorted tree h in
    rw same (
      validated u (sort_by (entry_cmp u) unsorted) kinds collected checked (
          IsSorted-sort_by
            (by_key-IsLawful (λ (e : PortableEntry). e.path.as_str) text_cmp-IsLawful) unsorted),
      Perm-sort_by (entry_cmp u) unsorted,
    )
