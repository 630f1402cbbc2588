-- ===== src/Netlink/Record/Attributes.antt =====
-- The loop over the attributes against the attributes that the kernel wrote.
use remnanode_xhttp_cleaner.Base.{
  ℕ, zero, suc, ◌+◌, ◌-◌, ◌^◌, ◌≤◌, ◌<◌, ◌≡◌, refl, sym, ◌∙◌, List, [], ◌∷◌, ◌++◌, arith, All,
  length, length-append, take, drop, take-append_of, drop-append_of, append_assoc,
}
use remnanode_xhttp_cleaner.Netlink.Bytes.{Bytes, align4, u16, pack16}
use remnanode_xhttp_cleaner.Netlink.Record.{Times, attributes_loop, read_attribute}

pub record Attribute : Type 0 where
  pub attribute_type : ℕ
  pub value : Bytes

pub record FitsAttribute (a : Attribute) : Type 0 where
  pub type_fits : a.attribute_type < 2 ^ 16
  pub length_fits : 4 + length a.value < 2 ^ 16

abbrev pub zeros : ℕ → Bytes
zeros zero = []
zeros (suc n) = 0 ∷ zeros n

-- `struct rtattr`, the value, and the padding to four bytes
unfoldable pub encode_attribute : Attribute → Bytes
unfolding pack16
encode_attribute a =
    pack16 (4 + length a.value)
    ++ pack16 a.attribute_type
    ++ a.value
    ++ zeros (align4 (4 + length a.value) - (4 + length a.value))

unfoldable pub encode_attributes : List Attribute → Bytes
encode_attributes [] = []
encode_attributes (a ∷ rest) = encode_attribute a ++ encode_attributes rest

unfoldable pub read_attributes : List Attribute → Times → Times
read_attributes [] times = times
read_attributes (a ∷ rest) times =
    read_attributes rest (read_attribute a.attribute_type a.value times)

length-zeros : (n : ℕ) → length (zeros n) ≡ n
length-zeros zero = refl
length-zeros (suc n) = omega (arith, length-zeros n)

module _ (a : Attribute) (fits : FitsAttribute a) (rest : Bytes) where
  length_of : u16 (encode_attribute a ++ rest) ≡ 4 + length a.value
  unfolding u16 encode_attribute
  length_of = let h = fits.length_fits in omega arith

  type_of : u16 (drop 2 (encode_attribute a ++ rest)) ≡ a.attribute_type
  unfolding u16 encode_attribute
  type_of = let h = fits.type_fits in omega arith

  value_of : take (4 + length a.value - 4) (drop 4 (encode_attribute a ++ rest)) ≡ a.value
  unfolding encode_attribute
  value_of = rw append_assoc (take-append_of _ a.value _ (omega arith))

  length-encode_attribute : length (encode_attribute a) ≡ align4 (4 + length a.value)
  unfolding encode_attribute align4
  length-encode_attribute =
      let pad = align4 (4 + length a.value) - (4 + length a.value) in
      omega (arith, length-append a.value (zeros pad), length-zeros pad)

  rest_of : drop (align4 (4 + length a.value)) (encode_attribute a ++ rest) ≡ rest
  rest_of = drop-append_of _ (encode_attribute a) rest (sym length-encode_attribute)

  attribute_inside : 4 + length a.value ≤ length (encode_attribute a ++ rest)
  unfolding align4
  attribute_inside = omega (arith, length-append (encode_attribute a) rest, length-encode_attribute)

  attribute_round :
      (fuel : ℕ) (times : Times)
      → attributes_loop (suc fuel) (encode_attribute a ++ rest) times
        ≡ attributes_loop fuel rest (read_attribute a.attribute_type a.value times)
  unfolding attributes_loop
  attribute_round fuel times =
      rw (length_of, type_of, value_of, rest_of) (ground (arith, attribute_inside))

-- The loop over the bytes reads the attributes in order, with any fuel that is at least the number
-- of bytes.
pub attributes_loop-encode :
    (fuel : ℕ) (items : List Attribute) (times : Times)
    → All FitsAttribute items
    → length (encode_attributes items) ≤ fuel
    → attributes_loop fuel (encode_attributes items) times ≡ read_attributes items times
unfolding encode_attributes read_attributes
attributes_loop-encode zero [] times fit h = unfold attributes_loop in refl
attributes_loop-encode (suc fuel) [] times fit h = unfold attributes_loop in refl
attributes_loop-encode zero (a ∷ items) times fit h =
    absurd (omega (arith, attribute_inside a fit.0 (encode_attributes items)))
attributes_loop-encode (suc fuel) (a ∷ items) times fit h =
    attribute_round a fit.0 (encode_attributes items) fuel times
    ∙ attributes_loop-encode fuel items (read_attribute a.attribute_type a.value times) fit.1 (
        unfold align4 in
        omega (
          arith,
          length-append (encode_attribute a) (encode_attributes items),
          length-encode_attribute a fit.0 [],
        ))
