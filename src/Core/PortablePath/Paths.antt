-- ===== src/Core/PortablePath/Paths.antt =====
-- What `PortablePath::parse` promises of one path.
use mathlib.Core.List.{reverse, reverse-append, append_assoc, append-nil}
use denju.Base.{
  ◌≡◌, ◌≢◌, refl, ap, ◌∙◌, false, arith, some, List, [], ◌∷◌, ◌++◌, ◌==◌, text_Eq, eq-cases,
}
use denju.Base.{Text, lit, split_at, ok, All}
use denju.Core.Unicode.{Unicode}
use denju.Core.PortablePath.Path.{
  PortablePath, parse, components, validate_component, validate_components, validate_portable_path,
  slash,
}
use denju.Core.PortablePath.Links.{walk}

-- A component that a path may have: neither empty nor a step to the same or the upper directory.
abbrev pub IsPlain : Text → Type 0
IsPlain component =
    (component ≢ []) × ((component == lit ".") ≡ false) × ((component == lit "..") ≡ false)

validate_components-All :
    (parts : List Text) → validate_components parts ≡ ok tt → All IsPlain parts
unfolding validate_components validate_component
validate_components-All [] h = tt
validate_components-All ([] ∷ parts) h = cc
validate_components-All ((c ∷ part) ∷ parts) h =
    ((λ e. cc e, ground arith, ground arith), validate_components-All parts (ground arith))

walk-plain :
    (here parts : List Text) → All IsPlain parts → walk here parts ≡ some (reverse parts ++ here)
unfolding walk
walk-plain here [] a = refl
walk-plain [] (part ∷ parts) a =
    rw (a.0.1, a.0.2)
      (walk-plain (part ∷ []) parts a.1 ∙ rw (reverse-append (part ∷ []) parts, append_assoc))
walk-plain (dir ∷ above) (part ∷ parts) a =
    rw (a.0.1, a.0.2)
      (walk-plain (part ∷ dir ∷ above) parts a.1
        ∙ rw (reverse-append (part ∷ []) parts, append_assoc))

parse-parts :
    (u : Unicode) (value : Text) (path : PortablePath)
    → parse u value ≡ ok path
    → (path.as_str ≡ value)
      × (u.nfc value ≡ value)
      × (validate_components (split_at slash value) ≡ ok tt)
unfolding parse validate_portable_path
parse-parts u value path h = ground (arith, eq-cases (u.nfc value) value)

-- An accepted path is kept as it is, is in normal form C, and leads from the root to exactly its
-- own components.
pub parse-walk :
    (u : Unicode) (value : Text) (path : PortablePath)
    → parse u value ≡ ok path
    → (path.as_str ≡ value)
      × (u.nfc value ≡ value)
      × (walk [] (components path) ≡ some (reverse (components path)))
unfolding components
parse-walk u value path h =
    let (same, normal, valid) = parse-parts u value path h in
    (
      same,
      normal,
      rw same (
          walk-plain [] (split_at slash value)
            (validate_components-All (split_at slash value) valid)
          ∙ ap some (append-nil _)),
    )
