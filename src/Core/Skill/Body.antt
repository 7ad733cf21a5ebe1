-- ===== src/Core/Skill/Body.antt =====
-- `split_frontmatter` on a document that is put together as `rewrite_skill_document_name` puts it
-- (crates/denju-core/src/skill.rs).
use denju.Base.{ℕ, suc, ◌+◌, ◌-◌, ◌≤◌, ◌≡◌, refl, ap, ◌∙◌, Bool, true, false, arith}
use denju.Base.{
  none, some, List, [], ◌∷◌, ◌++◌, nat_eq, any, length, length-append, take, drop, slice,
}
use denju.Base.{Bytes, last, ok, ◌==◌, text_discrete}
use mathlib.Core.List.{append_assoc}
use denju.Core.Merge.{lines, cons_line}
use denju.Core.Skill.Frontmatter.{
  marker, is_marker, trim_line_end, find_marker, split_frontmatter, open_frontmatter,
  close_frontmatter,
}

-- Empty, or with a line feed at the end.
unfoldable pub is_closed : Bytes → Bool
is_closed s = elim (last s) [ none ↦ true | some c ↦ nat_eq c b'\n' ]

cons_line-append :
    (b : ℕ) (ls rest : List Bytes)
    → 1 ≤ length ls
    → cons_line b (ls ++ rest) ≡ cons_line b ls ++ rest
unfolding cons_line
cons_line-append b [] rest h = absurd (omega arith)
cons_line-append b (l ∷ ls) rest h = refl

length-cons_line : (b : ℕ) (ls : List Bytes) → 1 ≤ length (cons_line b ls)
unfolding cons_line
length-cons_line b [] = omega arith
length-cons_line b (l ∷ ls) = omega arith

length-lines : (b : ℕ) (s : Bytes) → 1 ≤ length (lines (b ∷ s))
unfolding lines
length-lines b s = ground (arith, length-cons_line b (lines s))

lines-append : (s t : Bytes) → is_closed s ≡ true → lines (s ++ t) ≡ lines s ++ lines t
unfolding lines is_closed last
lines-append [] t h = refl
lines-append (b ∷ []) t h = ground arith
lines-append (b ∷ c ∷ s) t h =
    ground (
      arith,
      lines-append (c ∷ s) t,
      cons_line-append b (lines (c ∷ s)) (lines t) (length-lines c s),
    )

size : List Bytes → ℕ
size [] = 0
size (l ∷ ls) = length l + size ls

size-cons_line : (b : ℕ) (ls : List Bytes) → size (cons_line b ls) ≡ suc (size ls)
unfolding size cons_line
size-cons_line b [] = refl
size-cons_line b (l ∷ ls) = omega arith

size-lines : (s : Bytes) → size (lines s) ≡ length s
unfolding size lines
size-lines [] = refl
size-lines (b ∷ s) = ground (arith, size-cons_line b (lines s), size-lines s)

find_marker-append :
    (ls rest : List Bytes) (m : Bytes) (offset : ℕ)
    → any is_marker ls ≡ false
    → is_marker m ≡ true
    → find_marker (ls ++ (m ∷ rest)) offset ≡ some (offset + size ls, offset + size ls + length m)
unfolding find_marker any size
find_marker-append [] rest m offset n h =
    let e : offset + 0 ≡ offset = omega arith in rw (h, e) refl
find_marker-append (l ∷ ls) rest m offset n h =
    let other : is_marker l ≡ false = ground arith in
    let e : offset + length l + size ls ≡ offset + (length l + size ls) = omega arith in
    rw (other, find_marker-append ls rest m (offset + length l) (ground arith) h, e) refl

take_left : (s t : Bytes) → take (length s) (s ++ t) ≡ s
take_left [] t = refl
take_left (b ∷ s) t = ap (λ (r : Bytes). b ∷ r) (take_left s t)

drop_left : (s t : Bytes) → drop (length s) (s ++ t) ≡ t
drop_left [] t = refl
drop_left (b ∷ s) t = drop_left s t

abbrev pub fence : Bytes
fence = marker ++ b'\n' ∷ []

fence-marker : is_marker fence ≡ true
unfolding ◌==◌ text_discrete trim_line_end
fence-marker = refl

-- The document that `rewrite_skill_document_name` writes.
abbrev pub document : Bytes → Bytes → Bytes
document yaml body = (fence ++ (yaml ++ fence)) ++ body

document-parts : (yaml body : Bytes) → document yaml body ≡ fence ++ (yaml ++ (fence ++ body))
document-parts yaml body = ap (λ (r : Bytes). fence ++ r) (append_assoc yaml fence body)

lines-fence : (s : Bytes) → lines (fence ++ s) ≡ fence ∷ lines s
lines-fence s =
    lines-append fence s (unfold is_closed last in refl) ∙ unfold lines cons_line in refl

lines-document :
    (yaml body : Bytes)
    → is_closed yaml ≡ true
    → lines (document yaml body) ≡ fence ∷ (lines yaml ++ (fence ∷ lines body))
lines-document yaml body h =
    rw
      (
        document-parts yaml body,
        lines-fence (yaml ++ (fence ++ body)),
        lines-append yaml (fence ++ body) h,
        lines-fence body,
      )
      refl

slice-document : (yaml body : Bytes) → slice (document yaml body) 4 (4 + length yaml) ≡ yaml
unfolding slice
slice-document yaml body =
    let e : 4 + length yaml - 4 ≡ length yaml = omega arith in
    rw (e, append_assoc yaml fence body) (take_left yaml (fence ++ body))

drop-document : (yaml body : Bytes) → drop (4 + length yaml + 4) (document yaml body) ≡ body
drop-document yaml body =
    let front = fence ++ (yaml ++ fence) in
    let e : 4 + length yaml + 4 ≡ length front =
      omega (arith, length-append fence (yaml ++ fence), length-append yaml fence) in
    rw e (drop_left front body)

find_marker-document :
    (yaml body : Bytes)
    → any is_marker (lines yaml) ≡ false
    → find_marker (lines yaml ++ (fence ∷ lines body)) 4
      ≡ some (4 + length yaml, 4 + length yaml + 4)
find_marker-document yaml body n =
    find_marker-append (lines yaml) (lines body) fence 4 n fence-marker ∙ rw (size-lines yaml) refl

-- A document that is put together from a body and YAML that ends with a line feed or is empty, and
-- of which no line is a marker, is split into the same YAML and, from the offset given, the body.
pub split_frontmatter-document :
    (yaml body : Bytes)
    → is_closed yaml ≡ true
    → any is_marker (lines yaml) ≡ false
    → (split_frontmatter (document yaml body) ≡ ok (yaml, 4 + length yaml + 4))
      × (drop (4 + length yaml + 4) (document yaml body) ≡ body)
unfolding split_frontmatter open_frontmatter close_frontmatter
split_frontmatter-document yaml body h n = (
  rw
      (
        split_frontmatter,
        lines-document yaml body h,
        find_marker-document yaml body n,
        slice-document yaml body,
        fence-marker,
      )
      refl,
  drop-document yaml body,
)
