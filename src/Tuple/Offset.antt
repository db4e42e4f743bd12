-- ===== src/Tuple/Offset.antt =====
-- foundationdb-tuple/src/pack.rs: `VersionstampOffset`, which tells where the one incomplete
-- versionstamp of a packed tuple stands.
use foundationdb_rs.Prelude.{ℕ, add_u32}

pub data VersionstampOffset : Type 0 where
  none : ℕ → VersionstampOffset
  one_incomplete : ℕ → VersionstampOffset
  multiple_incomplete : VersionstampOffset

-- `AddAssign<u32>`
unfoldable pub add_size : VersionstampOffset → ℕ → VersionstampOffset
add_size (none size) r = none (add_u32 size r)
add_size (one_incomplete offset) r = one_incomplete offset
add_size multiple_incomplete r = multiple_incomplete

-- `AddAssign`
unfoldable pub add_offset : VersionstampOffset → VersionstampOffset → VersionstampOffset
add_offset (none size) (none r) = none (add_u32 size r)
add_offset (none size) (one_incomplete offset) = one_incomplete (add_u32 size offset)
add_offset (one_incomplete o) (one_incomplete p) = multiple_incomplete
add_offset (none size) multiple_incomplete = multiple_incomplete
add_offset (one_incomplete o) multiple_incomplete = multiple_incomplete
add_offset (one_incomplete o) (none r) = one_incomplete o
add_offset multiple_incomplete r = multiple_incomplete
