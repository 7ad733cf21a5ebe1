-- ===== src/Core/Entry.antt =====
-- `OwnedSkillEntry` of crates/denju-core/src/snapshot.rs.
use native.Mathlib.Decide.{ℕ_discrete}
use denju.Base.{Bool, Eq, Text, Bytes, Ordering, text_cmp}

pub data OwnedSkillEntry : Type 0 where
  file : Text → Bytes → Bool → OwnedSkillEntry
  directory : Text → OwnedSkillEntry
  symlink : Text → Text → OwnedSkillEntry

unfoldable pub entry_path : OwnedSkillEntry → Text
entry_path (file p bytes executable) = p
entry_path (directory p) = p
entry_path (symlink p target) = p

unfoldable pub OwnedSkillEntry-discrete : Discrete OwnedSkillEntry
unfolding ℕ_discrete
OwnedSkillEntry-discrete = hlevel ℕ_discrete

instance abbrev pub entry_Eq : Eq OwnedSkillEntry
entry_Eq = record { discrete = OwnedSkillEntry-discrete }

-- `left.path().as_bytes().cmp(right.path().as_bytes())`
abbrev pub path_cmp : OwnedSkillEntry → OwnedSkillEntry → Ordering
path_cmp left right = text_cmp (entry_path left) (entry_path right)
