-- ===== src/Tuple/Typed.antt =====
-- foundationdb-tuple/src/pack.rs: tuples of static types, by the macro `tuple_impls`, at the root. The
-- types are those of the durable records of the recipes.
pub mod RoundTrip
use foundationdb_rs.Prelude.{
  ℕ, suc, Bool, List, [], ◌∷◌, ◌++◌, Result, ok, err, ◌>>=◌, ◌^◌, ◌<◌, ◌≡◌, true, length,
}
use foundationdb_rs.Tuple.Codes.{PackError, trailing_bytes}
use foundationdb_rs.Tuple.Offset.{VersionstampOffset, add_offset}
use foundationdb_rs.Tuple.Bytes.{Parsed, Packed, Memchr, IsByte}
use foundationdb_rs.Tuple.Integers.{pack_ux, unpack_uint}
use foundationdb_rs.Tuple.Element.{pack_bool, unpack_bool, pack_str, unpack_str}

-- `u64`, `u32`, `bool` and `String`
pub data Shape : Type 0 where
  u64 u32 boolean text : Shape

abbrev pub Value : Shape → Type 0
Value u64 = ℕ
Value u32 = ℕ
Value boolean = Bool
Value text = List ℕ

abbrev pub Values : List Shape → Type 0
Values [] = Unit
Values (s ∷ ss) = Value s × Values ss

module _ (m : Memchr) where
  unfoldable pub pack_value : (s : Shape) → Value s → Packed
  pack_value u64 n = pack_ux 8 n
  pack_value u32 n = pack_ux 4 n
  pack_value boolean b = pack_bool b
  pack_value text v = pack_str m v

  unfoldable pub unpack_value : (s : Shape) → List ℕ → Parsed (Value s)
  unpack_value u64 input = unpack_uint 8 8 input
  unpack_value u32 input = unpack_uint 4 4 input
  unpack_value boolean input = unpack_bool input
  unpack_value text input = unpack_str m input

  -- The fields one after the other, with the offset so far.
  unfoldable pub pack_values : (ss : List Shape) → Values ss → VersionstampOffset → Packed
  unfolding pack_value
  pack_values [] vs offset = ok ([], offset)
  pack_values (s ∷ ss) (v, vs) offset = pack_value s v >>= λ (bs, o).
      pack_values ss vs (add_offset offset o) >>= λ (bs', offset'). ok (bs ++ bs', offset')

  unfoldable pub unpack_values : (ss : List Shape) → List ℕ → Parsed (Values ss)
  unfolding unpack_value
  unpack_values [] input = ok (input, tt)
  unpack_values (s ∷ ss) input = unpack_value s input >>= λ (rest, v).
      unpack_values ss rest >>= λ (rest', vs). ok (rest', (v, vs))

  -- `pack` and `unpack_root` of a tuple of these types
  unfoldable pub pack_typed : (ss : List Shape) → Values ss → Packed
  unfolding pack_values
  pack_typed ss vs = pack_values ss vs (VersionstampOffset.none 0)

  unfoldable pub unpack_typed : (ss : List Shape) → List ℕ → Result PackError (Values ss)
  unfolding unpack_values
  unpack_typed ss input = unpack_values ss input >>= λ (rest, vs). if_empty rest vs
    where
      if_empty : List ℕ → Values ss → Result PackError (Values ss)
      if_empty [] vs = ok vs
      if_empty (b ∷ rest) vs = err trailing_bytes
