-- ===== src/Tests/Object.antt =====
-- Transcripts at concrete entries.

use denju.Base.{◌≡◌, refl, false, [], ◌∷◌, ◌++◌, lit, Bytes, ok, to_utf8, insert_by, sort_by}
use mathlib.Core.List.Perm
use denju.Core.Ids.{Id7}
use denju.Core.Object
use denju.Core.Object.{new_revision}
use native.Mathlib.Decide.{ℕ_discrete}
use mathlib.Core.List.{Perm}
use denju.Base.{list_cmp, ◌==◌, text_Eq, text_discrete, length, ◌≤◌, IsSorted, IsDistinct}
use denju.Core.Object.{Revision, parent_cmp}
use denju.Core.Object.Parents.{new_revision-Perm, new_revision-IsSorted, parent_bytes}
use denju.Core.Object.{ObjectId, TreeEntry, TreeEntryKind, tree_transcript, name_cmp}
use denju.Core.Object.Transcript.{SameEntries, tree_transcript-SameEntries}

abbrev id : ObjectId
id = record { bytes = 7 ∷ 8 ∷ [] }

abbrev entry : TreeEntry
entry = record { name = lit "a"; kind = TreeEntryKind.file id false }

abbrev bytes : Bytes
bytes =
    lit "denju:tree:v1"
    ++ (0 ∷ 0 ∷ 0 ∷ 0 ∷ 1 ∷ 0 ∷ 0 ∷ 0 ∷ 9 ∷ 0 ∷ 0 ∷ 0 ∷ 1 ∷ 97 ∷ 1 ∷ 0 ∷ 7 ∷ 8 ∷ [])

entry_transcript : tree_transcript (entry ∷ []) ≡ ok bytes
unfolding tree_transcript Object.check_names Object.encode_entries Object.encode_tree_entry
    Object.encode_kind Object.length_field Object.be32 to_utf8 insert_by sort_by
entry_transcript = refl

tree_transcript-SameEntries_example :
    SameEntries (sort_by name_cmp (entry ∷ [])) (sort_by name_cmp (entry ∷ []))
tree_transcript-SameEntries_example =
    tree_transcript-SameEntries (entry ∷ []) (entry ∷ []) bytes entry_transcript entry_transcript

abbrev parent : ObjectId
parent = record { bytes = 1 ∷ [] }

abbrev who : Id7
who = record { bytes = 5 ∷ [] }

new_revision-Perm_example :
    new_revision id (id ∷ parent ∷ []) who who ≡ new_revision id (parent ∷ id ∷ []) who who
new_revision-Perm_example =
    new_revision-Perm id (id ∷ parent ∷ []) (parent ∷ id ∷ []) who who (Perm.swap parent id [])

abbrev revision : Revision
revision = record { root = id; parents = parent ∷ id ∷ []; author = who; operation = who }

revision_is_made : new_revision id (id ∷ parent ∷ []) who who ≡ ok revision
unfolding new_revision Object.has_repeat insert_by sort_by list_cmp ◌==◌ text_discrete ℕ_discrete
revision_is_made = refl

new_revision-IsSorted_example :
    Perm (parent ∷ id ∷ []) (id ∷ parent ∷ [])
    × IsSorted parent_cmp (parent ∷ id ∷ [])
    × (length (parent ∷ id ∷ []) ≤ 2)
    × IsDistinct (parent_bytes (parent ∷ id ∷ []))
new_revision-IsSorted_example =
    new_revision-IsSorted id (id ∷ parent ∷ []) who who revision revision_is_made
