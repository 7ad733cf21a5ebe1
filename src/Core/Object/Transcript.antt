-- ===== src/Core/Object/Transcript.antt =====
-- Equal transcripts come from equal trees: the bytes that are hashed determine the sorted entries.
use denju.Base.{append_injective, ℕ, ◌<◌, ◌≡◌, refl, sym, ap, ◌∙◌, arith}
use denju.Base.{List, [], ◌∷◌, ◌++◌, Bytes, length, to_utf8}
use denju.Base.{ok, sort_by, >>=-eq-ok, ok_injective}
use mathlib.Core.List.{append-nil}
use denju.Core.Object.Tree.{
  TreeEntry, TreeEntryKind, file, directory, symlink, TreeError, be32, u32_bound, length_field,
  encode_kind, encode_tree_entry, encode_entries, check_names, tree_domain, tree_transcript,
  name_cmp, name_too_large, entry_too_large, too_many_entries, symlink_target_too_large,
}

-- Four bytes determine a number below 2 ^ 32.
be32_injective : (m n : ℕ) → m < u32_bound → n < u32_bound → be32 m ≡ be32 n → m ≡ n
unfolding be32
be32_injective m n h k e = ground arith

-- A field of a length, what it measures, and the rest.
length_field-append :
    (xs ys us vs a b : Bytes) (e f : TreeError)
    → length_field (length xs) e ≡ ok a
    → length_field (length ys) f ≡ ok b
    → a ++ (xs ++ us) ≡ b ++ (ys ++ vs)
    → (xs ≡ ys) × (us ≡ vs)
unfolding length_field
length_field-append xs ys us vs a b e f h k q =
    let p : a ≡ be32 (length xs) = ground arith in
    let r : b ≡ be32 (length ys) = ground arith in
    let m : length xs < u32_bound = ground arith in
    let n : length ys < u32_bound = ground arith in
    let (heads, tails) =
      append_injective (be32 (length xs)) (be32 (length ys)) (xs ++ us) (ys ++ vs)
        (unfold be32 in refl)
        (ap (λ (t : Bytes). t ++ (xs ++ us)) (sym p) ∙ q ∙ ap (λ (t : Bytes). t ++ (ys ++ vs)) r) in
    append_injective xs ys us vs (be32_injective (length xs) (length ys) m n heads) tails

-- Two kinds with the same bytes: a symlink's target counts as its UTF-8 bytes, which it is.
abbrev pub SameKind : TreeEntryKind → TreeEntryKind → Type 0
SameKind (file blob executable) (file blob' executable') =
    (blob ≡ blob') × (executable ≡ executable')
SameKind (directory tree) (directory tree') = tree ≡ tree'
SameKind (symlink target) (symlink target') = to_utf8 target ≡ to_utf8 target'
SameKind _ _ = ⊥

abbrev pub SameEntry : TreeEntry → TreeEntry → Type 0
SameEntry x y = (to_utf8 x.name ≡ to_utf8 y.name) × SameKind x.kind y.kind

abbrev pub SameEntries : List TreeEntry → List TreeEntry → Type 0
SameEntries [] [] = Unit
SameEntries (x ∷ xs) (y ∷ ys) = SameEntry x y × SameEntries xs ys
SameEntries _ _ = ⊥

encode_kind-SameKind :
    (j k : TreeEntryKind) (a : Bytes) → encode_kind j ≡ ok a → encode_kind k ≡ ok a → SameKind j k
unfolding encode_kind
encode_kind-SameKind (file x p) (file y q) a g h = ground arith
encode_kind-SameKind (file x p) (directory y) a g h = ground arith
encode_kind-SameKind (file x p) (symlink y) a g h = ground arith
encode_kind-SameKind (directory x) (file y q) a g h = ground arith
encode_kind-SameKind (directory x) (directory y) a g h = ground arith
encode_kind-SameKind (directory x) (symlink y) a g h = ground arith
encode_kind-SameKind (symlink x) (file y q) a g h = ground arith
encode_kind-SameKind (symlink x) (directory y) a g h = ground arith
encode_kind-SameKind (symlink x) (symlink y) a g h =
    let (l, m, n) = >>=-eq-ok (length_field (length (to_utf8 x)) _) _ g in
    let (l', m', n') = >>=-eq-ok (length_field (length (to_utf8 y)) _) _ h in
    (length_field-append (to_utf8 x) (to_utf8 y) [] [] l l' symlink_target_too_large
      symlink_target_too_large m m'
      (rw (append-nil (to_utf8 x), append-nil (to_utf8 y)) (cc (n, n')))).0

encode_tree_entry-SameEntry :
    (x y : TreeEntry) (a : Bytes)
    → encode_tree_entry x ≡ ok a
    → encode_tree_entry y ≡ ok a
    → SameEntry x y
unfolding encode_tree_entry
encode_tree_entry-SameEntry x y a g h =
    let (l, m, r) = >>=-eq-ok (length_field (length (to_utf8 x.name)) _) _ g in
    let (k, n, s) = >>=-eq-ok (encode_kind x.kind) _ r in
    let (l', m', r') = >>=-eq-ok (length_field (length (to_utf8 y.name)) _) _ h in
    let (k', n', s') = >>=-eq-ok (encode_kind y.kind) _ r' in
    let (names, kinds) =
      length_field-append (to_utf8 x.name) (to_utf8 y.name) k k' l l' name_too_large name_too_large
        m m' (cc (s, s')) in
    (names, encode_kind-SameKind x.kind y.kind k n (n' ∙ ap (λ (b : Bytes). ok b) (sym kinds)))

encode_entries-SameEntries :
    (xs ys : List TreeEntry) (a : Bytes)
    → length xs ≡ length ys
    → encode_entries xs ≡ ok a
    → encode_entries ys ≡ ok a
    → SameEntries xs ys
unfolding encode_entries
encode_entries-SameEntries [] [] a e g h = tt
encode_entries-SameEntries [] (y ∷ ys) a e g h = absurd (omega arith)
encode_entries-SameEntries (x ∷ xs) [] a e g h = absurd (omega arith)
encode_entries-SameEntries (x ∷ xs) (y ∷ ys) a e g h =
    let (p, k, r) = >>=-eq-ok (encode_tree_entry x) _ g in
    let (l, m, r2) = >>=-eq-ok (length_field (length p) _) _ r in
    let (t, n, s) = >>=-eq-ok (encode_entries xs) _ r2 in
    let (p', k', r') = >>=-eq-ok (encode_tree_entry y) _ h in
    let (l', m', r2') = >>=-eq-ok (length_field (length p') _) _ r' in
    let (t', n', s') = >>=-eq-ok (encode_entries ys) _ r2' in
    let (payloads, tails) =
      length_field-append p p' t t' l l' entry_too_large entry_too_large m m' (cc (s, s')) in
    (
      encode_tree_entry-SameEntry x y p k (k' ∙ ap (λ (b : Bytes). ok b) (sym payloads)),
      encode_entries-SameEntries xs ys t (omega arith) n
          (n' ∙ ap (λ (b : Bytes). ok b) (sym tails)),
    )

counted_injective :
    (xs ys : List TreeEntry) {a b : Bytes} (us vs : Bytes)
    → length_field (length xs) too_many_entries ≡ ok a
    → length_field (length ys) too_many_entries ≡ ok b
    → a ++ us ≡ b ++ vs
    → (length xs ≡ length ys) × (us ≡ vs)
unfolding length_field
counted_injective xs ys {a} {b} us vs h k q =
    let p : a ≡ be32 (length xs) = ground arith in
    let r : b ≡ be32 (length ys) = ground arith in
    let m : length xs < u32_bound = ground arith in
    let n : length ys < u32_bound = ground arith in
    let (heads, tails) =
      append_injective (be32 (length xs)) (be32 (length ys)) us vs (unfold be32 in refl)
        (ap (λ (t : Bytes). t ++ us) (sym p) ∙ q ∙ ap (λ (t : Bytes). t ++ vs) r) in
    (be32_injective (length xs) (length ys) m n heads, tails)

tree_transcript-parts :
    (xs : List TreeEntry) (a : Bytes)
    → tree_transcript xs ≡ ok a
    → (count : Bytes) × (payloads : Bytes) × (length_field
          (length (sort_by name_cmp xs))
          too_many_entries
        ≡ ok count)
      × (encode_entries (sort_by name_cmp xs) ≡ ok payloads)
      × (a ≡ tree_domain ++ (count ++ payloads))
unfolding tree_transcript
tree_transcript-parts xs a h =
    let (checked, names, r) = >>=-eq-ok (check_names (sort_by name_cmp xs)) _ h in
    let (count, m, r2) = >>=-eq-ok (length_field (length (sort_by name_cmp xs)) _) _ r in
    let (payloads, n, s) = >>=-eq-ok (encode_entries (sort_by name_cmp xs)) _ r2 in
    (count, payloads, m, n, sym (ok_injective s))

-- Two lists of entries with the same transcript have, in the order of their names, the same entries.
pub tree_transcript-SameEntries :
    (xs ys : List TreeEntry) (a : Bytes)
    → tree_transcript xs ≡ ok a
    → tree_transcript ys ≡ ok a
    → SameEntries (sort_by name_cmp xs) (sort_by name_cmp ys)
tree_transcript-SameEntries xs ys a g h =
    let (count, payloads, m, n, s) = tree_transcript-parts xs a g in
    let (count', payloads', m', n', s') = tree_transcript-parts ys a h in
    let (same, rest) = append_injective tree_domain tree_domain _ _ refl (sym s ∙ s') in
    let (counts, all) =
      counted_injective (sort_by name_cmp xs) (sort_by name_cmp ys) payloads payloads' m m' rest in
    encode_entries-SameEntries (sort_by name_cmp xs) (sort_by name_cmp ys) payloads counts n
      (n' ∙ ap (λ (b : Bytes). ok b) (sym all))
