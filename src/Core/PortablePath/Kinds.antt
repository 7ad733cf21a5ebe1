-- ===== src/Core/PortablePath/Kinds.antt =====
-- The map of classes that `validate_portable_tree` collects (crates/denju-core/src/portable_path.rs),
-- and the walk over the parents of a path.

use denju.Base.{
  ℕ, zero, suc, ◌+◌, ◌≤◌, ◌<◌, ◌≡◌, refl, sym, ◌⊎◌, Bool, true, false, ◌&&◌, ◌||◌, arith,
}
use denju.Base.{none, some, List, [], ◌∷◌, map, ◌==◌, text_Eq, nat_Eq, eq-cases, take, contains}
use denju.Base.{Text, join, ok, All, All-imp, IsDistinct}
use denju.Base.{inl, inr}
use denju.Base.Strings.Map
use denju.Base.Strings.Map.{Map, get-insert}
use denju.Core.Unicode.{Unicode}
use denju.Core.PortablePath.Path.{slash}
use denju.Core.PortablePath.Tree.{
  PortableEntry, PortableEntryKind, EntryClass, entry_class, fold_case, collect_kinds,
  ensure_parents,
}

abbrev is_directory : PortableEntryKind → Bool
is_directory PortableEntryKind.directory = true
is_directory _ = false

-- Some entry is a directory of that path.
unfoldable pub has_directory : List PortableEntry → Text → Bool
has_directory [] p = false
has_directory (e ∷ es) p = (p == e.path.as_str && is_directory e.kind) || has_directory es p

module _ (u : Unicode) where
  abbrev pub folded : PortableEntry → Text
  folded e = fold_case u e.path.as_str

  collect_kinds-step :
      (F : Map Text) (K L : Map EntryClass) (e : PortableEntry) (es : List PortableEntry)
      → collect_kinds u F K (e ∷ es) ≡ ok L
      → (Map.get (folded e) F ≡ none)
        × (collect_kinds u
              (Map.insert (folded e) e.path.as_str F)
              (Map.insert e.path.as_str (entry_class e.kind) K)
              es
            ≡ ok L)
  unfolding collect_kinds
  collect_kinds-step F K L e es h = ground arith

  unseen-insert :
      (F : Map Text) (e e' : PortableEntry)
      → Map.get (folded e') (Map.insert (folded e) e.path.as_str F) ≡ none
      → (Map.get (folded e') F ≡ none) × ((folded e == folded e') ≡ false)
  unseen-insert F e e' h = ground (
    arith,
    get-insert (folded e') (folded e) e.path.as_str F,
    eq-cases (folded e) (folded e'),
    eq-cases (folded e') (folded e),
  )

  collect_kinds-unseen :
      (F : Map Text) (K L : Map EntryClass) (es : List PortableEntry)
      → collect_kinds u F K es ≡ ok L
      → All (λ e. Map.get (folded e) F ≡ none) es
  collect_kinds-unseen F K L [] h = tt
  collect_kinds-unseen F K L (e ∷ es) h =
      let (new, rest) = collect_kinds-step F K L e es h in
      (
        new,
        All-imp (λ e' n. (unseen-insert F e e' n).0) es
            (collect_kinds-unseen (Map.insert (folded e) e.path.as_str F)
              (Map.insert e.path.as_str (entry_class e.kind) K) L es rest),
      )

  not-contains :
      (x : Text) (es : List PortableEntry)
      → All (λ e. (x == folded e) ≡ false) es
      → contains (map folded es) x ≡ false
  unfolding contains
  not-contains x [] a = refl
  not-contains x (e ∷ es) a = rw a.0 (not-contains x es a.1)

  pub collect_kinds-IsDistinct :
      (F : Map Text) (K L : Map EntryClass) (es : List PortableEntry)
      → collect_kinds u F K es ≡ ok L
      → IsDistinct (map folded es)
  collect_kinds-IsDistinct F K L [] h = tt
  collect_kinds-IsDistinct F K L (e ∷ es) h =
      let (new, rest) = collect_kinds-step F K L e es h in
      (
        not-contains (folded e) es (
            All-imp (λ e' n. (unseen-insert F e e' n).1) es
              (collect_kinds-unseen (Map.insert (folded e) e.path.as_str F)
                (Map.insert e.path.as_str (entry_class e.kind) K) L es rest)),
        collect_kinds-IsDistinct (Map.insert (folded e) e.path.as_str F)
            (Map.insert e.path.as_str (entry_class e.kind) K) L es rest,
      )

  class_directory :
      (k : PortableEntryKind) → entry_class k ≡ EntryClass.directory → is_directory k ≡ true
  unfolding entry_class
  class_directory k h = ground arith

  pub collect_kinds-directory :
      (F : Map Text) (K L : Map EntryClass) (es : List PortableEntry) (p : Text)
      → collect_kinds u F K es ≡ ok L
      → Map.get p L ≡ some EntryClass.directory
      → (Map.get p K ≡ some EntryClass.directory) ⊎ (has_directory es p ≡ true)
  unfolding has_directory
  collect_kinds-directory F K L [] p h g = inl (unfold collect_kinds in ground arith)
  collect_kinds-directory F K L (e ∷ es) p h g =
      let (new, rest) = collect_kinds-step F K L e es h in
      ground (
        arith,
        get-insert p e.path.as_str (entry_class e.kind) K,
        class_directory e.kind,
        collect_kinds-directory (Map.insert (folded e) e.path.as_str F)
            (Map.insert e.path.as_str (entry_class e.kind) K) L es p rest g,
      )

ensure_parents-step :
    (kinds : Map EntryClass) (child : Text) (parts : List Text) (stop rounds : ℕ)
    → ensure_parents kinds child parts stop (suc rounds) ≡ ok tt
    → (Map.get (join slash (take stop parts)) kinds ≡ some EntryClass.directory)
      × (ensure_parents kinds child parts (suc stop) rounds ≡ ok tt)
unfolding ensure_parents
ensure_parents-step kinds child parts stop rounds h = ground arith

pub ensure_parents-directory :
    (kinds : Map EntryClass) (child : Text) (parts : List Text) (stop rounds : ℕ)
    → ensure_parents kinds child parts stop rounds ≡ ok tt
    → (n : ℕ) → stop ≤ n
    → n < stop + rounds
    → Map.get (join slash (take n parts)) kinds ≡ some EntryClass.directory
ensure_parents-directory kinds child parts stop zero h n a b = absurd (omega arith)
ensure_parents-directory kinds child parts stop (suc rounds) h n a b =
    let (here, rest) = ensure_parents-step kinds child parts stop rounds h in
    elim (eq-cases stop n) [
      | inl q ↦ rw (sym q.1) here
      | inr q ↦
          ensure_parents-directory kinds child parts (suc stop) rounds rest n (omega (arith, q.1))
            (omega arith)
    ]
