-- ===== src/Profiling/Decode.antt =====
-- foundationdb-profiling/src/decode.rs: the decoder of profiling blobs. A reader is the blob with a
-- position. The loop over the events takes fuel, and `none` means that it ran out.
mod Input
pub mod Advances
pub mod Progress
pub mod Wire
pub mod Parts
pub mod RoundTrip
pub mod Blob
use foundationdb_rs.Prelude.{
  ℕ, zero, suc, ◌+◌, ◌-◌, ◌*◌, ◌/◌, ◌%◌, ◌^◌, Bool, true, false, not, ◌&&◌, ◌||◌, Option, none,
  some, List, [], ◌∷◌, ◌++◌, ◌==◌, ltb, leb, if◌then◌else◌, length, take, drop, Result, ok, err, ℤ,
  pos, negsuc,
}
use foundationdb_rs.Profiling.{
  ProtocolVersion, v7_1, v7_2, v7_3, v7_4, KeyRange, EventHeader, GetVersion, Get, GetRange,
  Mutation, clear_range_type, SpanContext, CommitRequest, Commit, GetError, GetRangeError,
  CommitError, Event, get_version, get, get_range, commit, get_error, get_range_error, commit_error,
}
unfoldable pub use Input.*

abbrev pub is_empty_list : List ℕ → Bool
is_empty_list [] = true
is_empty_list (b ∷ bs) = false

-- `last() == Some(&0)`
abbrev pub ends_in_zero : List ℕ → Bool
ends_in_zero [] = false
ends_in_zero (b ∷ []) = b == 0
ends_in_zero (b ∷ c ∷ bs) = ends_in_zero (c ∷ bs)

-- `Vec::pop`
abbrev pub popped : List ℕ → List ℕ
popped [] = []
popped (b ∷ []) = []
popped (b ∷ c ∷ bs) = b ∷ popped (c ∷ bs)

-- The short form of a range of one key, in `Reader::conflict_range`
unfoldable pub widen_range : ℕ → KeyRange → Reads KeyRange
widen_range at range =
    if is_empty_list range.end && not (is_empty_list range.begin)
    then (if not (ends_in_zero range.begin)
        then fail (malformed_key_range at)
        else pure (record { begin = popped range.begin; end = range.begin }))
    else pure range

-- `Reader::conflict_range`
unfoldable pub conflict_range : Reads KeyRange
conflict_range = do at ← offset; range ← key_range; widen_range at range

-- `Reader::span_context`
unfoldable pub span_context : ProtocolVersion → Reads SpanContext
span_context version = do
  first ← u64
  second ← u64
  if has_otel_span_context version
      then (u64 >>= λ span_id. u8 >>= λ flags.
          pure (record { trace_id = (first, second); span_id = span_id; flags = flags }))
      else pure (record { trace_id = (first, second); span_id = 0; flags = 0 })

-- `& CHECKSUM_FLAG_MASK` and `& ACCUMULATIVE_CHECKSUM_INDEX_FLAG_MASK`
abbrev pub has_checksum : ℕ → Bool
has_checksum t = t / 128 % 2 == 1

abbrev pub has_index : ℕ → Bool
has_index t = t / 64 % 2 == 1

abbrev pub checksum_len : ℕ
checksum_len = 4

abbrev pub index_len : ℕ
index_len = 2

-- The checksum and its index behind the second parameter, in `Reader::mutation`; the flags are the
-- two high bits of the type.
unfoldable pub strip_checksum : ℕ → Mutation → Reads Mutation
strip_checksum at mutation =
    let suffix =
      if has_index mutation.mutation_type then checksum_len + index_len else checksum_len in
    if has_checksum mutation.mutation_type
    then (if ltb (length mutation.param2) suffix
        then fail (malformed_mutation at)
        else pure (record {
          mutation_type = mutation.mutation_type % 64;
          param1 = mutation.param1;
          param2 = take (length mutation.param2 - suffix) mutation.param2;
        }))
    else pure mutation

-- The short form of a cleared key, in `Reader::mutation`, which only warns where no zero ends the key
unfoldable pub widen_clear : Mutation → Mutation
widen_clear mutation =
    if mutation.mutation_type == clear_range_type
      && (is_empty_list mutation.param2 && not (is_empty_list mutation.param1))
    then record mutation { param1 = popped mutation.param1; param2 = mutation.param1 }
    else mutation

-- `Reader::mutation`
unfoldable pub mutation : Reads Mutation
mutation = do
  at ← offset
  mutation_type ← u8
  param1 ← bytes
  param2 ← bytes
  stripped ←
      strip_checksum at (record { mutation_type = mutation_type; param1 = param1; param2 = param2 })
  pure (widen_clear stripped)

-- `Reader::commit_request`
unfoldable pub commit_request : ProtocolVersion → Reads CommitRequest
commit_request version = do
  read_conflict_ranges ← vec conflict_range
  write_conflict_ranges ← vec conflict_range
  mutations ← vec mutation
  read_snapshot ← i64
  report_conflicting_keys ← bool
  lock_aware ← bool
  span ← optional (span_context version)
  pure (record {
    read_conflict_ranges = read_conflict_ranges;
    write_conflict_ranges = write_conflict_ranges;
    mutations = mutations;
    read_snapshot = read_snapshot;
    report_conflicting_keys = report_conflicting_keys;
    lock_aware = lock_aware;
    span_context = span;
  })

-- The match of `Reader::event` on the type of the event
unfoldable pub event_body : ProtocolVersion → EventHeader → ℕ → Reads Event
event_body version h zero = do
  latency ← f64
  priority ← u32
  read_version ← i64
  pure (
      get_version (record {
        header = h;
        latency = latency;
        priority = priority;
        read_version = read_version;
      }))
event_body version h (suc zero) = do
  latency ← f64
  value_size ← i32
  key ← bytes
  pure (get (record { header = h; latency = latency; value_size = value_size; key = key }))
event_body version h (suc (suc zero)) = do
  latency ← f64
  range_size ← i32
  range ← key_range
  pure
      (get_range (record { header = h; latency = latency; range_size = range_size; range = range }))
event_body version h (suc (suc (suc zero))) = do
  latency ← f64
  num_mutations ← i32
  commit_bytes ← i32
  commit_version ← i64
  request ← commit_request version
  pure (
      commit (record {
        header = h;
        latency = latency;
        num_mutations = num_mutations;
        commit_bytes = commit_bytes;
        commit_version = commit_version;
        request = request;
      }))
event_body version h (suc (suc (suc (suc zero)))) = do
  error_code ← i32
  key ← bytes
  pure (get_error (record { header = h; error_code = error_code; key = key }))
event_body version h (suc (suc (suc (suc (suc zero))))) = do
  error_code ← i32
  range ← key_range
  pure (get_range_error (record { header = h; error_code = error_code; range = range }))
event_body version h (suc (suc (suc (suc (suc (suc zero)))))) = do
  error_code ← i32
  request ← commit_request version
  pure (commit_error (record { header = h; error_code = error_code; request = request }))
event_body version h (suc (suc (suc (suc (suc (suc (suc n))))))) =
    fail (unknown_event_type (pos (suc (suc (suc (suc (suc (suc (suc n)))))))))

-- `Reader::event`
unfoldable pub event_of : ProtocolVersion → ℤ → Reads Event
event_of version (negsuc n) = fail (unknown_event_type (negsuc n))
event_of version (pos n) =
    if leb n 6 then (header >>= λ h. event_body version h n) else fail (unknown_event_type (pos n))

unfoldable pub event : ProtocolVersion → Reads Event
event version = do event_type ← i32; event_of version event_type

-- The loop of `decode_events`
unfoldable pub events : ℕ → ProtocolVersion → Reader → Option (Result DecodeError (List Event))
events zero version r = none
events (suc fuel) version r = if remaining r == 0 then some (ok []) else elim (event version r) [
  | err e ↦ some (err e)
  | ok (x, r') ↦ elim (events fuel version r') [
    | none ↦ none
    | some (err e) ↦ some (err e)
    | some (ok xs) ↦ some (ok (x ∷ xs))
  ]
]

-- `decode_events`, behind the reading of the version
unfoldable pub after_version :
    ℕ
    → Result DecodeError (ProtocolVersion × Reader)
    → Option (Result DecodeError (ProtocolVersion × List Event))
after_version fuel (err e) = some (err e)
after_version fuel (ok (version, r)) =
    let rest : Option (Result DecodeError (ProtocolVersion × List Event)) =
      elim (events fuel version r) [
        | none ↦ none
        | some (err e) ↦ some (err e)
        | some (ok xs) ↦ some (ok (version, xs))
      ] in
    if not (is_supported version) then some (err (unsupported_protocol_version version)) else rest

-- `decode_events`
unfoldable pub decode_events : List ℕ → Option (Result DecodeError (ProtocolVersion × List Event))
decode_events blob = after_version (length blob + 1) (u64 (record { buf = blob; pos = 0 }))
