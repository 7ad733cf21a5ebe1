-- ===== src/Tests/Canonical.antt =====
-- A canonical form of JSON that keeps the contract of `serde_json_canonicalizer`.
use mathlib.Core.List.{append_assoc, append-nil}
use denju.Base.{ℕ, ◌≡◌, refl, sym, ap, ap₂, ◌∙◌, Bool, true, false, [], ◌∷◌, ◌++◌}
use denju.Base.{Text, Bytes, length, ok, ok_injective, append_injective}
use denju.Wire.Json.{
  Json, Items, Members, null, boolean, number, string, array, object, nil, cons, end, member,
  normal,
}
use denju.Wire.Hash.{Crates, IsCanonical}

abbrev bit : Bool → ℕ
bit true = 1
bit false = 0

unfoldable mutual
  pub encode : Json → Bytes
  encode null = 0 ∷ []
  encode (boolean b) = 1 ∷ bit b ∷ []
  encode (number n) = 2 ∷ n ∷ []
  encode (string s) = 3 ∷ length s ∷ s
  encode (array xs) = 4 ∷ encode_items xs
  encode (object ms) = 5 ∷ encode_members ms

  pub encode_items : Items → Bytes
  encode_items nil = 0 ∷ []
  encode_items (cons x xs) = 1 ∷ (encode x ++ encode_items xs)

  pub encode_members : Members → Bytes
  encode_members end = 0 ∷ []
  encode_members (member k v ms) = 1 ∷ length k ∷ (k ++ (encode v ++ encode_members ms))

shift :
    (k : Text) (v : Json) (ms : Members) (x : Bytes)
    → k ++ (encode v ++ (encode_members ms ++ x)) ≡ (k ++ (encode v ++ encode_members ms)) ++ x
shift k v ms x =
    rw
      (
        append_assoc k (encode v ++ encode_members ms) x,
        append_assoc (encode v) (encode_members ms) x,
      )
      refl

mutual
  unfolding encode

  parse : (a b : Json) (x y : Bytes) → encode a ++ x ≡ encode b ++ y → (a ≡ b) × (x ≡ y)
  parse null null x y e = (refl, cc e)
  parse (boolean true) (boolean true) x y e = (refl, cc e)
  parse (boolean false) (boolean false) x y e = (refl, cc e)
  parse (number m) (number n) x y e = (cc e, cc e)
  parse (string s) (string t) x y e =
      let (same, rest) = append_injective s t x y (cc e) (cc e) in (ap string same, rest)
  parse (array xs) (array ys) x y e =
      let (same, rest) = parse_items xs ys x y (cc e) in (ap array same, rest)
  parse (object ms) (object ns) x y e =
      let (same, rest) = parse_members ms ns x y (cc e) in (ap object same, rest)
  parse _ _ x y e = cc e

  parse_items :
      (a b : Items) (x y : Bytes) → encode_items a ++ x ≡ encode_items b ++ y → (a ≡ b) × (x ≡ y)
  parse_items nil nil x y e = (refl, cc e)
  parse_items (cons v vs) (cons w ws) x y e =
      let (heads, tails) = parse v w (encode_items vs ++ x) (encode_items ws ++ y) (
        sym (append_assoc (encode v) (encode_items vs) x)
        ∙ cc e
        ∙ append_assoc (encode w) (encode_items ws) y) in
      let (same, rest) = parse_items vs ws x y tails in (ap₂ cons heads same, rest)
  parse_items _ _ x y e = cc e

  parse_members :
      (a b : Members) (x y : Bytes)
      → encode_members a ++ x ≡ encode_members b ++ y
      → (a ≡ b) × (x ≡ y)
  parse_members end end x y e = (refl, cc e)
  parse_members (member j v ms) (member k w ns) x y e =
      let (keys, after) =
        append_injective j k (encode v ++ (encode_members ms ++ x))
          (encode w ++ (encode_members ns ++ y)) (cc e)
          (shift j v ms x ∙ cc e ∙ sym (shift k w ns y)) in
      let (values, tails) = parse v w (encode_members ms ++ x) (encode_members ns ++ y) after in
      let (same, rest) = parse_members ms ns x y tails in (rw (keys, values, same) refl, rest)
  parse_members _ _ x y e = cc e

-- Canonical JSON, a digest that keeps its input, and texts as their own bytes.
abbrev pub plain : Crates
plain = record {
  to_vec = λ j. ok (encode (normal j));
  digest = λ b. 7 ∷ b;
  encode = λ b. b;
  decode = λ s. ok s;
}

encode_injective : (a b : Json) → encode a ≡ encode b → a ≡ b
encode_injective a b h =
    (parse a b [] [] (append-nil (encode a) ∙ h ∙ sym (append-nil (encode b)))).0

pub plain-IsCanonical : IsCanonical plain.to_vec
plain-IsCanonical = record {
  injective =
      λ a b bytes p q g h. encode_injective (normal a) (normal b) (ok_injective (g ∙ sym h));
}
