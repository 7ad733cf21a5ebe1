-- ===== src/Tests/Release.antt =====
-- The metadata of a release, and the public form of a manifest.
use denju.Base.{◌↔◌, ◌≡◌, refl, false, some, List, [], ◌∷◌}
use denju.Base.{Text, lit, ok}
use denju.Core.Object.{ObjectId}
use denju.Core.Snapshot.{SkillManifest, SkillManifestEntry}
use denju.Wire.Manifest.{Hex, IsHex, from_core, to_core, to_core-from_core}
use denju.Registry.Release.{
  validate_release_metadata, IsMetadata, validate_release_metadata-IsMetadata,
}

abbrev tags : List Text
tags = lit "v1.0" ∷ lit "stable" ∷ []

validate_release_metadata-IsMetadata_example :
    (validate_release_metadata (some (lit "first")) tags ≡ ok tt)
    ↔ IsMetadata (some (lit "first")) tags
validate_release_metadata-IsMetadata_example =
    validate_release_metadata-IsMetadata (some (lit "first")) tags

abbrev plain_hex : Hex
plain_hex = record { encode = λ b. b; decode = λ s. some s; error_text = λ e. lit "bad identity" }

plain_hex-IsHex : IsHex plain_hex
plain_hex-IsHex = record { decode-encode = λ b. refl }

abbrev id : ObjectId
id = record { bytes = lit "abcdefghijklmnopqrstuvwxyz012345" }

abbrev manifest : SkillManifest
manifest = record {
  root_tree = id;
  entries =
      SkillManifestEntry.file (lit "SKILL.md") id 12 false
      ∷ SkillManifestEntry.symlink (lit "link") (lit "SKILL.md")
      ∷ [];
}

to_core-from_core_example : to_core plain_hex (from_core plain_hex manifest) ≡ ok manifest
to_core-from_core_example =
    to_core-from_core plain_hex plain_hex-IsHex manifest refl (refl, (tt, tt))
