-- ===== src/Profiling/Decode/Input.antt =====
-- foundationdb-profiling/src/decode.rs: the reader, which is a blob with a position, and what it reads of
-- integers, byte strings, lists and headers.
use foundationdb_rs.Prelude.{
  ℕ, zero, suc, ◌+◌, ◌-◌, ◌*◌, ◌^◌, Bool, not, ◌&&◌, ◌||◌, Option, none, some, List, [], ◌∷◌, ◌==◌,
  ltb, leb, if◌then◌else◌, length, take, drop, Result, ok, err, ℤ, pos, negsuc,
}
use foundationdb_rs.Profiling.{ProtocolVersion, v7_1, v7_2, v7_3, v7_4, KeyRange, EventHeader}

pub data DecodeError : Type 0 where
  unexpected_eof : ℕ → ℕ → ℕ → DecodeError
  unsupported_protocol_version : ℕ → DecodeError
  unknown_event_type : ℤ → DecodeError
  malformed_key_range malformed_mutation : ℕ → DecodeError

-- `is_supported`
abbrev pub is_supported : ProtocolVersion → Bool
is_supported version = version == v7_1 || (version == v7_2 || (version == v7_3 || version == v7_4))

-- `has_otel_span_context`
abbrev pub has_otel_span_context : ProtocolVersion → Bool
has_otel_span_context version = leb v7_2 version

pub record Reader : Type 0 where
  pub buf : List ℕ
  pub pos : ℕ

-- `Reader::remaining`
abbrev pub remaining : Reader → ℕ
remaining r = length r.buf - r.pos

-- What reads a value and moves the reader
abbrev pub Reads : Type 0 → Type 0
Reads A = Reader → Result DecodeError (A × Reader)

infixl 5 ◌>>=◌
abbrev pub ◌>>=◌ : {A B : Type 0} → Reads A → (A → Reads B) → Reads B
◌>>=◌ p f r = elim (p r) [ ok (a, r') ↦ f a r' | err e ↦ err e ]

abbrev pub pure : {A : Type 0} → A → Reads A
pure a r = ok (a, r)

abbrev pub fail : {A : Type 0} → DecodeError → Reads A
fail e r = err e

-- The position, for an error
abbrev pub offset : Reads ℕ
offset r = ok (r.pos, r)

-- `Reader::take`
unfoldable pub take_bytes : ℕ → Reads (List ℕ)
take_bytes n r =
    if leb r.pos (length r.buf) && leb n (length (drop r.pos r.buf))
    then ok (take n (drop r.pos r.buf), record r { pos = r.pos + n })
    else err (unexpected_eof r.pos n (remaining r))

-- `from_le_bytes`
abbrev pub from_le_bytes : List ℕ → ℕ
from_le_bytes [] = 0
from_le_bytes (b ∷ bs) = b + 256 * from_le_bytes bs

-- The integer of a bit pattern in two's complement
abbrev pub of_bits : ℕ → ℕ → ℤ
of_bits width u = if ltb u (2 ^ (width - 1)) then pos u else negsuc (2 ^ width - 1 - u)

-- `Reader::array` and the integers that it makes
unfoldable pub unsigned : ℕ → Reads ℕ
unsigned n = do bs ← take_bytes n; pure (from_le_bytes bs)

abbrev pub u8 : Reads ℕ
u8 = unsigned 1

abbrev pub u32 : Reads ℕ
u32 = unsigned 4

abbrev pub u64 : Reads ℕ
u64 = unsigned 8

abbrev pub f64 : Reads ℕ
f64 = unsigned 8

unfoldable pub i32 : Reads ℤ
i32 = do u ← unsigned 4; pure (of_bits 32 u)

unfoldable pub i64 : Reads ℤ
i64 = do u ← unsigned 8; pure (of_bits 64 u)

unfoldable pub bool : Reads Bool
bool = do b ← u8; pure (not (b == 0))

-- `Reader::bytes`
unfoldable pub bytes : Reads (List ℕ)
bytes = do len ← u32; take_bytes len

-- `Reader::key_range`
unfoldable pub key_range : Reads KeyRange
key_range = do begin ← bytes; end ← bytes; pure (record { begin = begin; end = end })

-- The loop of `Reader::vec`
unfoldable pub elements : {A : Type 0} → Reads A → ℕ → Reads (List A)
elements elem zero = pure []
elements elem (suc count) = do x ← elem; xs ← elements elem count; pure (x ∷ xs)

-- `Reader::vec`
unfoldable pub vec : {A : Type 0} → Reads A → Reads (List A)
vec elem = do count ← u32; elements elem count

-- What stands behind a flag
unfoldable pub optional : {A : Type 0} → Reads A → Reads (Option A)
optional elem = do present ← bool; if present then (elem >>= λ x. pure (some x)) else pure none

-- `Reader::header`
unfoldable pub header : Reads EventHeader
header = do
  start_timestamp ← f64
  dc_id ← bytes
  tenant ← optional bytes
  pure (record { start_timestamp = start_timestamp; dc_id = dc_id; tenant = tenant })
