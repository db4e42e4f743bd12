-- ===== src/Profiling/Reader/Keys.antt =====
-- foundationdb-profiling/src/reader.rs: cursors, the range of a scan and the keys of chunks.
use foundationdb_rs.Prelude.{
  ℕ, Bool, false, not, ◌||◌, Option, none, some, List, [], ◌∷◌, ◌++◌, ◌==◌, ltb, if◌then◌else◌,
  length, get_elem?, slice, ℤ, pos, negsuc,
}
use foundationdb_rs.Tuple.Words.{be_bytes, from_be_bytes}
use foundationdb_rs.Tuple.Subspace.{starts_with}
use foundationdb_rs.Tuple.Compare.Total.{before}
use foundationdb_rs.Profiling.Decode.{of_bits}

-- `PROFILE_PREFIX` without its last byte, which `PROFILE_END` changes
abbrev pub profile_stem : List ℕ
profile_stem =
    0xff ∷ 0x02 ∷ 0x2f ∷ 0x66 ∷ 0x64 ∷ 0x62 ∷ 0x43 ∷ 0x6c ∷ 0x69 ∷ 0x65 ∷ 0x6e ∷ 0x74 ∷ 0x49 ∷ 0x6e
    ∷ 0x66 ∷ 0x6f ∷ 0x2f ∷ 0x63 ∷ 0x6c ∷ 0x69 ∷ 0x65 ∷ 0x6e ∷ 0x74 ∷ 0x5f ∷ 0x6c ∷ 0x61 ∷ 0x74
    ∷ 0x65 ∷ 0x6e ∷ 0x63 ∷ 0x79 ∷ []

abbrev pub profile_prefix : List ℕ
profile_prefix = profile_stem ++ 0x2f ∷ []

abbrev pub profile_end : List ℕ
profile_end = profile_stem ++ 0x30 ∷ []

abbrev pub slash : ℕ
slash = 0x2f

-- Where the parts of a chunk's key begin and end
abbrev pub versionstamp_start : ℕ
versionstamp_start = 32

abbrev pub versionstamp_end : ℕ
versionstamp_end = 42

abbrev pub id_start : ℕ
id_start = 43

abbrev pub id_end : ℕ
id_end = 59

abbrev pub chunk_start : ℕ
chunk_start = 60

abbrev pub total_start : ℕ
total_start = 64

abbrev pub min_key_len : ℕ
min_key_len = 68

pub record Cursor : Type 0 where
  pub key : List ℕ

-- `Cursor::beginning`
unfoldable pub beginning : Cursor
beginning = record { key = profile_prefix }

abbrev max_zero : ℤ → ℕ
max_zero (pos n) = n
max_zero (negsuc n) = 0

-- `version_key`
unfoldable pub version_key : ℤ → List ℕ
version_key version = profile_prefix ++ (be_bytes 8 (max_zero version) ++ 0x00 ∷ 0x00 ∷ [])

-- `Cursor::at_version`
unfoldable pub at_version : ℤ → Cursor
at_version version = record { key = version_key version }

-- `Cursor::from_bytes`, where `none` is `InvalidCursor`
unfoldable pub from_bytes : List ℕ → Option Cursor
from_bytes bytes = if starts_with bytes profile_prefix then some (record { key = bytes }) else none

-- `key_after`
unfoldable pub key_after : List ℕ → List ℕ
key_after key = key ++ 0x00 ∷ []

-- `ProfileScanner`, by its `end_version`
pub record ProfileScanner : Type 0 where
  pub end_version : Option ℤ

pub record ScanRange : Type 0 where
  pub begin : List ℕ
  pub end : List ℕ

abbrev end_key : Option ℤ → List ℕ
end_key (some version) = version_key version
end_key none = profile_end

-- `ProfileScanner::range`; `end.max(begin)` is the begin where they are equal.
unfoldable pub range : ProfileScanner → Cursor → ScanRange
range scanner cursor =
    let end = end_key scanner.end_version in
    record { begin = cursor.key; end = if before cursor.key end then end else cursor.key }

pub record ChunkKey : Type 0 where
  pub versionstamp : List ℕ
  pub id : List ℕ
  pub chunk : ℕ
  pub total : ℕ

abbrev is_slash : Option ℕ → Bool
is_slash none = false
is_slash (some b) = b == slash

-- `ChunkKey::parse`
unfoldable pub parse : List ℕ → Option ChunkKey
parse key =
    if ltb (length key) min_key_len
      || (not (starts_with key profile_prefix)
          || (not (is_slash (get_elem? key versionstamp_end))
              || not (is_slash (get_elem? key id_end))))
    then none
    else some (record {
      versionstamp = slice key versionstamp_start versionstamp_end;
      id = slice key id_start id_end;
      chunk = from_be_bytes (slice key chunk_start total_start);
      total = from_be_bytes (slice key total_start min_key_len);
    })

-- `version_of`
unfoldable pub version_of : List ℕ → ℤ
version_of versionstamp = of_bits 64 (from_be_bytes (slice versionstamp 0 8))
