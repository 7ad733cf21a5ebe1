-- ===== src/Wire/Json.antt =====
-- JSON as `serde` gives it to a serializer, and the order of members that the canonical form of
-- RFC 8785 forgets. Numbers are the `u64` of the source.
use Prim.Native.Nat.Ordering.{lt, eq, gt}
use denju.Base.{ℕ, ◌^◌, Bool, true, ◌&&◌, Option, none, some, List, [], ◌∷◌}
use denju.Base.{if◌then◌else◌, ltb, ◌==◌, text_Eq, Text, text_cmp}

mutual
  pub data Json : Type 0 where
    null : Json
    boolean : Bool → Json
    number : ℕ → Json
    string : Text → Json
    array : Items → Json
    object : Members → Json

  pub data Items : Type 0 where
    nil : Items
    cons : Json → Items → Items

  pub data Members : Type 0 where
    end : Members
    member : Text → Json → Members → Members

unfoldable pub insert_member : Text → Json → Members → Members
insert_member k v end = member k v end
insert_member k v (member j w ms) =
    let rest = insert_member k v ms in
    elim (text_cmp k j) [
      | lt ↦ member k v (member j w ms)
      | eq ↦ member k v (member j w ms)
      | gt ↦ member j w rest
    ]

-- The members of every object in the order of their keys.
unfoldable mutual
  unfolding insert_member

  pub normal : Json → Json
  normal null = null
  normal (boolean b) = boolean b
  normal (number n) = number n
  normal (string s) = string s
  normal (array xs) = array (normal_items xs)
  normal (object ms) = object (normal_members ms)

  pub normal_items : Items → Items
  normal_items nil = nil
  normal_items (cons x xs) = cons (normal x) (normal_items xs)

  pub normal_members : Members → Members
  normal_members end = end
  normal_members (member k v ms) = insert_member k (normal v) (normal_members ms)

-- RFC 8785 writes numbers as IEEE doubles, which are exact below `2 ^ 53`.
unfoldable mutual
  pub is_exact : Json → Bool
  is_exact null = true
  is_exact (boolean b) = true
  is_exact (number n) = ltb n (2 ^ 53)
  is_exact (string s) = true
  is_exact (array xs) = is_exact_items xs
  is_exact (object ms) = is_exact_members ms

  pub is_exact_items : Items → Bool
  is_exact_items nil = true
  is_exact_items (cons x xs) = is_exact x && is_exact_items xs

  pub is_exact_members : Members → Bool
  is_exact_members end = true
  is_exact_members (member k v ms) = is_exact v && is_exact_members ms

-- How `serde` serializes options and slices of strings.
abbrev pub maybe_string : Option Text → Json
maybe_string none = null
maybe_string (some s) = string s

abbrev pub maybe_number : Option ℕ → Json
maybe_number none = null
maybe_number (some n) = number n

unfoldable pub string_items : List Text → Items
string_items [] = nil
string_items (s ∷ ss) = cons (string s) (string_items ss)

unfoldable pub members_of : List (Text × Json) → Members
members_of [] = end
members_of ((k, v) ∷ rest) = member k v (members_of rest)

-- The object of a struct: its fields in their order.
unfoldable pub struct : List (Text × Json) → Json
unfolding members_of
struct fields = object (members_of fields)

-- What stands at a key.
unfoldable pub find : Text → Members → Json
find k end = null
find k (member j v ms) = if k == j then v else find k ms

unfoldable pub field : Text → Json → Json
field k (object ms) = find k ms
field k _ = null
