-- ===== src/Core/PortablePath/Links.antt =====
-- Where the target of a link leads when its text is followed component by component, as
-- `validate_symlink_target` (crates/denju-core/src/portable_path.rs) does. A component that is itself a link
-- counts as a directory: containment is lexical.
use mathlib.Core.List.{reverse}
use denju.Base.{◌-◌, ◌≡◌, ◌∙◌, ◌≢◌, arith}
use denju.Base.{Option, none, some, List, [], ◌∷◌, if◌then◌else◌, ◌==◌, text_Eq, length, take}
use denju.Base.{Text, lit, split_at, ok, err, length-take, length-reverse}
use denju.Core.Unicode.{Unicode}
use denju.Core.PortablePath.Path.{PortablePath, components, component_count, slash}
use denju.Core.PortablePath.Tree.{escaping_symlink, follow_target, validate_symlink_target}

-- Where a relative path leads from the directories `here` (the innermost first): `none` once it
-- would leave the root.
unfoldable pub walk : List Text → List Text → Option (List Text)
walk here [] = some here
walk [] (part ∷ parts) =
    let same = walk [] parts in
    let down = walk (part ∷ []) parts in
    if part == lit "." then same else if part == lit ".." then none else down
walk (dir ∷ above) (part ∷ parts) =
    let same = walk (dir ∷ above) parts in
    let up = walk above parts in
    let down = walk (part ∷ dir ∷ above) parts in
    if part == lit "." then same else if part == lit ".." then up else down

-- The directories that hold an entry, the innermost first.
pub holders : PortablePath → List Text
holders path = reverse (take (component_count path - 1) (components path))

pub length-holders : (path : PortablePath) → length (holders path) ≡ component_count path - 1
unfolding holders component_count
length-holders path =
    length-reverse (take (length (components path) - 1) (components path))
    ∙ omega (arith, length-take (length (components path) - 1) (components path))

module _ (path target : Text) where
  follow_target-walk :
      (here parts : List Text)
      → follow_target path target (length here) parts ≡ ok tt
      → walk here parts ≢ none
  unfolding follow_target walk
  follow_target-walk here [] h = λ e. cc (e)
  follow_target-walk [] (part ∷ parts) h =
      ground (arith, follow_target-walk [] parts, follow_target-walk (part ∷ []) parts)
  follow_target-walk (dir ∷ above) (part ∷ parts) h = ground (
    arith,
    follow_target-walk (dir ∷ above) parts,
    follow_target-walk above parts,
    follow_target-walk (part ∷ dir ∷ above) parts,
  )

  follow_target-escape :
      (here parts : List Text)
      → follow_target path target (length here) parts ≡ err (escaping_symlink path target)
      → walk here parts ≡ none
  unfolding follow_target walk
  follow_target-escape here [] h = cc
  follow_target-escape [] (part ∷ parts) h =
      ground (arith, follow_target-escape [] parts, follow_target-escape (part ∷ []) parts)
  follow_target-escape (dir ∷ above) (part ∷ parts) h = ground (
    arith,
    follow_target-escape (dir ∷ above) parts,
    follow_target-escape above parts,
    follow_target-escape (part ∷ dir ∷ above) parts,
  )

module _ (u : Unicode) (path : PortablePath) (target : Text) where
  -- The target of an accepted link, followed component by component from the directory that holds the
  -- link, never leaves the root.
  pub validate_symlink_target-walk :
      validate_symlink_target u path target ≡ ok tt
      → walk (holders path) (split_at slash target) ≢ none
  unfolding validate_symlink_target
  validate_symlink_target-walk h =
      follow_target-walk path.as_str target (holders path) (split_at slash target)
        (rw length-holders (ground arith))

  -- A target that is refused for escaping does leave the root.
  pub validate_symlink_target-escape :
      validate_symlink_target u path target ≡ err (escaping_symlink path.as_str target)
      → walk (holders path) (split_at slash target) ≡ none
  unfolding validate_symlink_target
  validate_symlink_target-escape h =
      follow_target-escape path.as_str target (holders path) (split_at slash target)
        (rw length-holders (ground arith))
