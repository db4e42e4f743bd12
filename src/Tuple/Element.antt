-- ===== src/Tuple/Element.antt =====
-- foundationdb-tuple/src/element.rs and the element part of pack.rs: dynamically typed tuple values,
-- as built without the features `uuid` and `num-bigint`.
pub mod Encoding
pub mod RoundTrip
pub mod Root
pub mod Stamps
use foundationdb_rs.Prelude.{
  ℕ, zero, suc, ◌+◌, ◌-◌, Bool, true, false, Option, none, some, List, [], ◌∷◌, ◌++◌, ltb, leb,
  ◌==◌, ◌&&◌, ◌||◌, not, if◌then◌else◌, get_elem?, length, ◌*◌, Result, ok, err, ◌>>=◌, ℤ,
}
use foundationdb_rs.Tuple.Codes.{
  PackError, message, trailing_bytes, missing_bytes, bad_string_format, bad_code, out_of_fuel,
  nil_code, bytes_code, string_code, nested_code, intzero, negintstart, posintend, float_code,
  double_code, false_code, true_code, versionstamp_code, escape,
}
use foundationdb_rs.Tuple.Offset.{VersionstampOffset, add_size, add_offset}
use foundationdb_rs.Tuple.Bytes.{
  Parsed, Packed, Memchr, parse_byte, parse_code, write_bytes, parse_slice, is_escape,
}
use foundationdb_rs.Tuple.Utf8.{is_utf8}
use foundationdb_rs.Tuple.Integers.{pack_ix, unpack_int}
use foundationdb_rs.Tuple.Floats.{pack_fx, unpack_fx}
use foundationdb_rs.Tuple.Versionstamp.{pack_versionstamp, unpack_versionstamp}

-- Strings are their UTF-8 bytes, floats their bit patterns, versionstamps their twelve bytes.
mutual
  pub data Element : Type 0 where
    nil : Element
    bytes : List ℕ → Element
    string : List ℕ → Element
    tuple : Elements → Element
    int : ℤ → Element
    float : ℕ → Element
    double : ℕ → Element
    bool : Bool → Element
    versionstamp : List ℕ → Element

  pub data Elements : Type 0 where
    no_more : Elements
    more : Element → Elements → Elements

-- `TuplePack for Option`, at `None`
unfoldable pub pack_none : ℕ → Packed
pack_none depth =
    if ltb 1 depth
    then ok (nil_code ∷ escape ∷ [], VersionstampOffset.none 2)
    else ok (nil_code ∷ [], VersionstampOffset.none 1)

-- `TupleUnpack for Option`, at `None`: the caller has seen the NIL.
unfoldable pub unpack_none : List ℕ → ℕ → Result PackError (List ℕ)
unfolding parse_code
unpack_none input depth = do
  rest ← parse_code input nil_code
  if ltb 1 depth then parse_code rest escape else ok rest

unfoldable pub pack_bool : Bool → Packed
pack_bool b = ok ((if b then true_code else false_code) ∷ [], VersionstampOffset.none 1)

unfoldable pub unpack_bool : List ℕ → Parsed Bool
unfolding parse_byte
unpack_bool input = do
  (rest, v) ← parse_byte input
  if v == false_code
      then ok (rest, false)
      else if v == true_code
      then ok (rest, true)
      else err (message v)

-- A type code is written in front.
abbrev with_code : ℕ → Packed → Packed
with_code code p = p >>= λ (bs, offset). ok (code ∷ bs, offset)

module _ (m : Memchr) where
  -- `TuplePack` for `Bytes` and for `&str`; the offset of `write_bytes` counts the code.
  unfoldable pub pack_bytes : List ℕ → Packed
  pack_bytes v = with_code bytes_code (write_bytes m v)

  unfoldable pub pack_str : List ℕ → Packed
  pack_str v = with_code string_code (write_bytes m v)

  unfoldable pub unpack_bytes : List ℕ → Parsed (List ℕ)
  unfolding parse_code
  unpack_bytes input = do rest ← parse_code input bytes_code; parse_slice m rest

  unfoldable pub parse_string : List ℕ → Parsed (List ℕ)
  parse_string input = do
    (rest, v) ← parse_slice m input
    if is_utf8 v then ok (rest, v) else err bad_string_format

  unfoldable pub unpack_str : List ℕ → Parsed (List ℕ)
  unfolding parse_code parse_string
  unpack_str input = do rest ← parse_code input string_code; parse_string rest

  -- `TuplePack for Element`, and the loop of `TuplePack for &[T]` with the offset so far.
  unfoldable mutual
    pub pack_element : Element → ℕ → Packed
    pack_element nil depth = pack_none depth
    pack_element (bool b) depth = pack_bool b
    pack_element (int i) depth = pack_ix 8 i
    pack_element (float f) depth = pack_fx 4 float_code f
    pack_element (double f) depth = pack_fx 8 double_code f
    pack_element (string v) depth = pack_str v
    pack_element (bytes v) depth = pack_bytes v
    pack_element (versionstamp v) depth = pack_versionstamp v
    pack_element (tuple vs) depth =
        if ltb 0 depth
        then (pack_elements vs (suc depth) (add_size (VersionstampOffset.none 0) 1)
            >>= λ (bs, offset). ok (nested_code ∷ (bs ++ nil_code ∷ []), add_size offset 1))
        else pack_elements vs (suc depth) (VersionstampOffset.none 0)

    pub pack_elements : Elements → ℕ → VersionstampOffset → Packed
    pack_elements no_more depth offset = ok ([], offset)
    pack_elements (more v vs) depth offset = pack_element v depth >>= λ (bs, o).
        pack_elements vs depth (add_offset offset o) >>= λ (bs', offset'). ok (bs ++ bs', offset')

abbrev is_nil : Option ℕ → Bool
is_nil none = false
is_nil (some b) = b == nil_code

unfoldable pub is_end_of_tuple : List ℕ → Bool → Bool
is_end_of_tuple [] nested = true
is_end_of_tuple (b ∷ input) nested =
    if nested then b == nil_code && not (is_escape (get_elem? (b ∷ input) 1)) else false

abbrev tag {ℓ κ} : {A : Type ℓ} {B : Type κ} → (A → B) → Parsed A → Parsed B
tag f p = p >>= λ (rest, v). ok (rest, f v)

-- Which value a first byte announces. `nested` is the only kind that recurs.
pub data Kind : Type 0 where
  of_nil of_bytes of_string of_tuple of_int of_float of_double of_bool of_versionstamp : Kind
  unknown : Kind

-- The match on the first byte in `Element::unpack`.
unfoldable pub kind_of : ℕ → Kind
kind_of first =
    if first == nil_code
    then of_nil
    else if first == bytes_code
    then of_bytes
    else if first == string_code
    then of_string
    else if first == nested_code
    then of_tuple
    else if leb (intzero - 8) first && leb first (intzero + 8)
    then of_int
    else if first == negintstart || first == posintend
    then of_int
    else if first == float_code
    then of_float
    else if first == double_code
    then of_double
    else if first == false_code || first == true_code
    then of_bool
    else if first == versionstamp_code
    then of_versionstamp
    else unknown

-- `TupleUnpack for Vec<T>`: the loop over the elements is handed over.
unfoldable pub unpack_vec : ℕ → (List ℕ → Bool → Parsed Elements) → List ℕ → Parsed Elements
unfolding parse_code
unpack_vec depth loop input = do
  let nested = ltb 0 depth
  inside ← if nested then parse_code input nested_code else ok input
  (rest, vs) ← loop inside nested
  rest' ← if nested then parse_code rest nil_code else ok rest
  ok (rest', vs)

-- The end of `Element::unpack`: at the root, what is left holds the other elements of a tuple.
unfoldable pub root_tail : ℕ → (List ℕ → Parsed Elements) → List ℕ × Element → Parsed Element
root_tail depth others (rest, v) =
    if depth == 0 && not (is_end_of_tuple rest false)
    then (others rest >>= λ (rest', vs). ok (rest', tuple (more v vs)))
    else ok (rest, v)

module _ (m : Memchr) where
  -- `TupleUnpack for Element`, and the loops over elements: that of `Vec<T>`, and that over what is
  -- left at the root, where nothing is nested. Each call costs a unit of fuel.
  unfoldable mutual
    pub unpack_element : ℕ → List ℕ → ℕ → Parsed Element
    unpack_element zero input depth = err out_of_fuel
    unpack_element (suc f) [] depth =
        if depth == 0 then ok ([], tuple no_more) else err missing_bytes
    unpack_element (suc f) (first ∷ input) depth =
        let whole = first ∷ input in
        (elim (kind_of first) [
          | of_nil ↦ unpack_none whole depth >>= λ rest. ok (rest, nil)
          | of_bytes ↦ tag bytes (unpack_bytes m whole)
          | of_string ↦ tag string (unpack_str m whole)
          | of_tuple ↦
              tag tuple
                (unpack_vec depth (λ rest nested. unpack_loop f rest (suc depth) nested) whole)
          | of_int ↦ tag int (unpack_int 8 8 whole)
          | of_float ↦ tag float (unpack_fx 4 float_code whole)
          | of_double ↦ tag double (unpack_fx 8 double_code whole)
          | of_bool ↦ tag bool (unpack_bool whole)
          | of_versionstamp ↦ tag versionstamp (unpack_versionstamp whole)
          | unknown ↦ err (bad_code first none)
        ])
        >>= root_tail depth (λ rest. unpack_loop f rest (suc depth) false)

    pub unpack_loop : ℕ → List ℕ → ℕ → Bool → Parsed Elements
    unpack_loop zero input depth nested = err out_of_fuel
    unpack_loop (suc f) input depth nested =
        let round = unpack_element f input depth >>= λ (rest, v).
        unpack_loop f rest depth nested >>= λ (rest', vs). ok (rest', more v vs) in
        if is_end_of_tuple input nested then ok (input, no_more) else round

  -- `unpack_root`: two units of fuel for a byte, and some for the empty input.
  unfoldable pub unpack_root : List ℕ → Result PackError Element
  unpack_root input = do
    (rest, v) ← unpack_element (2 * length input + 3) input 0
    if is_end_of_tuple rest false then ok v else err trailing_bytes

  -- `pack_root`
  unfoldable pub pack_root : Element → Packed
  pack_root v = pack_element m v 0
