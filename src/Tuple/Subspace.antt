-- ===== src/Tuple/Subspace.antt =====
-- foundationdb-tuple/src/subspace.rs, and the functions of foundationdb-tuple/src/lib.rs and pack.rs
-- that pack a key with the offset of its versionstamp. A panic is an error value.
pub mod Keys
pub mod Range
pub mod Stamped
pub mod Joined
pub mod Made
use foundationdb_rs.Prelude.{
  ℕ, zero, suc, ◌+◌, not, ◌%◌, ◌/◌, ◌^◌, Bool, true, false, List, [], ◌∷◌, ◌++◌, ltb, ◌==◌, ◌&&◌,
  if◌then◌else◌, length, drop, Result, ok, err, ◌>>=◌, ℤ, pos, negsuc,
}
use foundationdb_rs.Tuple.Codes.{IoError, PackError, bad_prefix}
use foundationdb_rs.Tuple.Offset.{VersionstampOffset, add_offset}
use foundationdb_rs.Tuple.Bytes.{Memchr}
use foundationdb_rs.Tuple.Element.{Element, pack_root, unpack_root}

-- Why the functions panic: a string of 2^32 bytes or more, a prefix or a buffer of that length, two
-- incomplete versionstamps, or an offset that is no `u16`.
pub data Panic : Type 0 where
  pack_failed data_too_large multiple_stamps offset_too_large : Panic

-- `to_le_bytes`
abbrev pub le_bytes : ℕ → ℕ → List ℕ
le_bytes zero u = []
le_bytes (suc n) u = (u % 256) ∷ le_bytes n (u / 256)

-- `api_version < 520`
abbrev pub is_legacy : ℤ → Bool
is_legacy (pos n) = ltb n 520
is_legacy (negsuc n) = true

-- `append_key_offset`
unfoldable pub append_key_offset : VersionstampOffset → List ℕ → ℤ → Result Panic (List ℕ)
append_key_offset (VersionstampOffset.one_incomplete offset) output api_version =
    if is_legacy api_version
    then (if ltb offset (2 ^ 16) then ok (output ++ le_bytes 2 offset) else err offset_too_large)
    else ok (output ++ le_bytes 4 offset)
append_key_offset VersionstampOffset.multiple_incomplete output api_version = err multiple_stamps
append_key_offset (VersionstampOffset.none size) output api_version = ok output

-- The suffix of four bytes, and the panic, of `pack_with_versionstamp`.
unfoldable pub append_offset : VersionstampOffset → List ℕ → Result Panic (List ℕ)
append_offset (VersionstampOffset.one_incomplete offset) output = ok (output ++ le_bytes 4 offset)
append_offset VersionstampOffset.multiple_incomplete output = err multiple_stamps
append_offset (VersionstampOffset.none size) output = ok output

pub record Subspace : Type 0 where
  pub prefix : List ℕ
  pub versionstamp_offset : VersionstampOffset

-- `starts_with`
unfoldable pub starts_with : List ℕ → List ℕ → Bool
starts_with key [] = true
starts_with [] (p ∷ ps) = false
starts_with (k ∷ key) (p ∷ ps) = k == p && starts_with key ps

-- `Subspace::is_start_of`
unfoldable pub is_start_of : Subspace → List ℕ → Bool
unfolding starts_with
is_start_of s key = starts_with key s.prefix

-- `Subspace::range`
unfoldable pub range : Subspace → List ℕ × List ℕ
range s = (s.prefix ++ 0x00 ∷ [], s.prefix ++ 0xff ∷ [])

-- `Subspace::all`
unfoldable pub all : Subspace
all = record { prefix = []; versionstamp_offset = VersionstampOffset.none 0 }

-- `Subspace::from_bytes`
unfoldable pub from_bytes : List ℕ → Result Panic Subspace
from_bytes prefix =
    if ltb (length prefix) (2 ^ 32)
    then ok
        (record { prefix = prefix; versionstamp_offset = VersionstampOffset.none (length prefix) })
    else err data_too_large

-- `expect(PACK_ERR_MSG)`
abbrev pub expect_packed :
    Result IoError (List ℕ × VersionstampOffset) → Result Panic (List ℕ × VersionstampOffset)
expect_packed (ok p) = ok p
expect_packed (err e) = err pack_failed

module _ (m : Memchr) where
  -- `pack_into`, with the buffer's new content and the offset
  unfoldable pub pack_into : Element → List ℕ → Result Panic (List ℕ × VersionstampOffset)
  pack_into v output = expect_packed (pack_root m v) >>= λ (bs, offset). ok (output ++ bs, offset)

  -- `Subspace::from`
  unfoldable pub from : Element → Result Panic Subspace
  unfolding pack_into
  from v = do
    (prefix, offset) ← pack_into v []
    ok (record { prefix = prefix; versionstamp_offset = offset })

  -- `Subspace::subspace`
  unfoldable pub subspace : Subspace → Element → Result Panic Subspace
  unfolding pack_into
  subspace s t = do
    (prefix, offset) ← pack_into t s.prefix
    ok (record { prefix = prefix; versionstamp_offset = add_offset s.versionstamp_offset offset })

  -- `Subspace::pack`
  unfoldable pub pack : Subspace → Element → Result Panic (List ℕ)
  unfolding pack_into
  pack s t = do (out, _) ← pack_into t s.prefix; ok out

  -- `Subspace::pack_with_versionstamp`
  unfoldable pub pack_with_versionstamp : Subspace → Element → Result Panic (List ℕ)
  unfolding pack_into append_offset
  pack_with_versionstamp s t = do
    (output, offset) ← pack_into t s.prefix
    append_offset (add_offset s.versionstamp_offset offset) output

  -- `Subspace::pack_with_versionstamp_for_key`
  unfoldable pub pack_with_versionstamp_for_key : Subspace → Element → ℤ → Result Panic (List ℕ)
  unfolding pack_into append_key_offset
  pack_with_versionstamp_for_key s t api_version = do
    (output, offset) ← pack_into t s.prefix
    append_key_offset (add_offset s.versionstamp_offset offset) output api_version

  -- The function `pack_with_versionstamp_for_key` of lib.rs
  unfoldable pub pack_key : Element → ℤ → Result Panic (List ℕ)
  unfolding pack_into append_key_offset
  pack_key v api_version = do
    (output, offset) ← pack_into v []
    append_key_offset offset output api_version

  -- `Subspace::unpack`
  unfoldable pub unpack : Subspace → List ℕ → Result PackError Element
  unfolding is_start_of
  unpack s key =
      if not (is_start_of s key) then err bad_prefix else unpack_root m (drop (length s.prefix) key)
