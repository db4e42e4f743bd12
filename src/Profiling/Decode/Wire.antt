-- ===== src/Profiling/Decode/Wire.antt =====
-- The format of profiling blobs, as the FoundationDB client writes them for the versions that
-- foundationdb-profiling reads: which bytes stand for which events.
use foundationdb_rs.Prelude.{
  ℕ, ◌+◌, ◌-◌, ◌^◌, ◌<◌, ◌≡◌, Bool, true, false, Option, none, some, List, [], ◌∷◌, ◌++◌,
  if◌then◌else◌, length, ℤ, pos, negsuc,
}
use foundationdb_rs.Tuple.Subspace.{le_bytes}
use foundationdb_rs.Tuple.Integers.Signed.{IsSigned}
use foundationdb_rs.Profiling.{
  ProtocolVersion, KeyRange, EventHeader, Mutation, SpanContext, CommitRequest, Event,
}
use foundationdb_rs.Profiling.Decode.{has_otel_span_context}

-- Two's complement in some number of bits
abbrev pub to_bits : ℕ → ℤ → ℕ
to_bits width (pos n) = n
to_bits width (negsuc n) = 2 ^ width - 1 - n

abbrev pub IsText : List ℕ → Type 0
IsText v = length v < 2 ^ 32

abbrev pub wire_text : List ℕ → List ℕ
wire_text v = le_bytes 4 (length v) ++ v

abbrev pub wire_bool : Bool → List ℕ
wire_bool b = le_bytes 1 (if b then 1 else 0)

abbrev pub wire_i32 : ℤ → List ℕ
wire_i32 i = le_bytes 4 (to_bits 32 i)

abbrev pub wire_i64 : ℤ → List ℕ
wire_i64 i = le_bytes 8 (to_bits 64 i)

-- Which bytes stand for a value
abbrev pub Format : Type 0 → Type 1
Format A = A → List ℕ → Type 0

pub data WireText : List ℕ → List ℕ → Type 0 where
  text : (v : List ℕ) → IsText v → WireText v (wire_text v)

pub data WireOption {A : Type 0} (W : Format A) : Option A → List ℕ → Type 0 where
  absent : WireOption W none (wire_bool false)
  present : (x : A) (bs : List ℕ) → W x bs → WireOption W (some x) (wire_bool true ++ bs)

-- Some elements one after the other, and the same behind their number
pub data WireAll {A : Type 0} (W : Format A) : List A → List ℕ → Type 0 where
  nil : WireAll W [] []
  cons :
      (x : A) (xs : List A) (bs cs : List ℕ)
      → W x bs
      → WireAll W xs cs
      → WireAll W (x ∷ xs) (bs ++ cs)

pub data WireVec {A : Type 0} (W : Format A) : List A → List ℕ → Type 0 where
  vec :
      (xs : List A) (bs : List ℕ)
      → length xs < 2 ^ 32
      → WireAll W xs bs
      → WireVec W xs (le_bytes 4 (length xs) ++ bs)

pub data WireHeader : EventHeader → List ℕ → Type 0 where
  header :
      (h : EventHeader) (bs : List ℕ)
      → h.start_timestamp < 2 ^ 64
      → IsText h.dc_id
      → WireOption WireText h.tenant bs
      → WireHeader h (le_bytes 8 h.start_timestamp ++ (wire_text h.dc_id ++ bs))

-- A range in full
pub data WireKeyRange : KeyRange → List ℕ → Type 0 where
  range :
      (k : KeyRange)
      → IsText k.begin
      → IsText k.end
      → WireKeyRange k (wire_text k.begin ++ wire_text k.end)

-- A conflict range: in full, where it is not taken for the short form, and the short form of the
-- range of one key, which leaves the end away.
pub data WireConflict : KeyRange → List ℕ → Type 0 where
  whole :
      (k : KeyRange) (bs : List ℕ)
      → (k.end ≡ [] → k.begin ≡ [])
      → WireKeyRange k bs
      → WireConflict k bs
  single :
      (key bs : List ℕ)
      → WireKeyRange (record { begin = key ++ 0 ∷ []; end = [] }) bs
      → WireConflict (record { begin = key; end = key ++ 0 ∷ [] }) bs

-- What the flags of a mutation's type say of the bytes behind its second parameter
pub data IsChecksum : ℕ → List ℕ → Type 0 where
  no_checksum : IsChecksum 0 []
  checksum : (c : List ℕ) → length c ≡ 4 → IsChecksum 128 c
  indexed : (c : List ℕ) → length c ≡ 6 → IsChecksum 192 c

-- The bytes of a mutation as it is sent
abbrev pub wire_mutation : ℕ → List ℕ → List ℕ → List ℕ
wire_mutation t p q = le_bytes 1 t ++ (wire_text p ++ wire_text q)

-- A mutation in full, where it is not taken for the short form, and the short form of the clearing of
-- one key, with a checksum or without.
pub data WireMutation : Mutation → List ℕ → Type 0 where
  whole :
      (m : Mutation) (flags : ℕ) (c : List ℕ)
      → m.mutation_type < 64
      → IsText m.param1
      → IsText (m.param2 ++ c)
      → IsChecksum flags c
      → (m.mutation_type ≡ 1 → m.param2 ≡ [] → m.param1 ≡ [])
      → WireMutation m (wire_mutation (m.mutation_type + flags) m.param1 (m.param2 ++ c))
  single :
      (key : List ℕ) (flags : ℕ) (c : List ℕ)
      → IsText (key ++ 0 ∷ [])
      → IsText c
      → IsChecksum flags c
      → WireMutation
          (record { mutation_type = 1; param1 = key; param2 = key ++ 0 ∷ [] })
          (wire_mutation (1 + flags) (key ++ 0 ∷ []) c)

-- The context of a span, which is shorter before version 7.2
pub data WireSpan (version : ProtocolVersion) : SpanContext → List ℕ → Type 0 where
  otel :
      (s : SpanContext)
      → has_otel_span_context version ≡ true
      → (s.trace_id).0 < 2 ^ 64
      → (s.trace_id).1 < 2 ^ 64
      → s.span_id < 2 ^ 64
      → s.flags < 2 ^ 8
      → WireSpan version s (
          le_bytes 8 (s.trace_id).0
          ++ (le_bytes 8 (s.trace_id).1 ++ (le_bytes 8 s.span_id ++ le_bytes 1 s.flags)))
  older :
      (a b : ℕ)
      → has_otel_span_context version ≡ false
      → a < 2 ^ 64
      → b < 2 ^ 64
      → WireSpan version
          (record { trace_id = (a, b); span_id = 0; flags = 0 })
          (le_bytes 8 a ++ le_bytes 8 b)

pub data WireRequest (version : ProtocolVersion) : CommitRequest → List ℕ → Type 0 where
  request :
      (q : CommitRequest) (reads writes mutations span : List ℕ)
      → WireVec WireConflict q.read_conflict_ranges reads
      → WireVec WireConflict q.write_conflict_ranges writes
      → WireVec WireMutation q.mutations mutations
      → IsSigned 64 q.read_snapshot
      → WireOption (WireSpan version) q.span_context span
      → WireRequest version q (
          reads
          ++ (writes
              ++ (mutations
                  ++ (wire_i64 q.read_snapshot
                      ++ (wire_bool q.report_conflicting_keys
                          ++ (wire_bool q.lock_aware ++ span))))))

-- What stands behind the header of an event, by its type
pub data WireBody (version : ProtocolVersion) (h : EventHeader) : ℕ → Event → List ℕ → Type 0 where
  get_version :
      (latency priority : ℕ) (read_version : ℤ)
      → latency < 2 ^ 64
      → priority < 2 ^ 32
      → IsSigned 64 read_version
      → WireBody version h 0
          (Event.get_version (record {
            header = h;
            latency = latency;
            priority = priority;
            read_version = read_version;
          }))
          (le_bytes 8 latency ++ (le_bytes 4 priority ++ wire_i64 read_version))
  get :
      (latency : ℕ) (value_size : ℤ) (key : List ℕ)
      → latency < 2 ^ 64
      → IsSigned 32 value_size
      → IsText key
      → WireBody version h 1
          (Event.get (record { header = h; latency = latency; value_size = value_size; key = key }))
          (le_bytes 8 latency ++ (wire_i32 value_size ++ wire_text key))
  get_range :
      (latency : ℕ) (range_size : ℤ) (range : KeyRange) (bs : List ℕ)
      → latency < 2 ^ 64
      → IsSigned 32 range_size
      → WireKeyRange range bs
      → WireBody version h 2
          (Event.get_range
            (record { header = h; latency = latency; range_size = range_size; range = range }))
          (le_bytes 8 latency ++ (wire_i32 range_size ++ bs))
  commit :
      (latency : ℕ) (num_mutations commit_bytes commit_version : ℤ) (request : CommitRequest)
      (bs : List ℕ)
      → latency < 2 ^ 64
      → IsSigned 32 num_mutations
      → IsSigned 32 commit_bytes
      → IsSigned 64 commit_version
      → WireRequest version request bs
      → WireBody version h 3
          (Event.commit (record {
            header = h;
            latency = latency;
            num_mutations = num_mutations;
            commit_bytes = commit_bytes;
            commit_version = commit_version;
            request = request;
          }))
          (le_bytes 8 latency
            ++ (wire_i32 num_mutations
                ++ (wire_i32 commit_bytes ++ (wire_i64 commit_version ++ bs))))
  get_error :
      (error_code : ℤ) (key : List ℕ)
      → IsSigned 32 error_code
      → IsText key
      → WireBody version h 4
          (Event.get_error (record { header = h; error_code = error_code; key = key }))
          (wire_i32 error_code ++ wire_text key)
  get_range_error :
      (error_code : ℤ) (range : KeyRange) (bs : List ℕ)
      → IsSigned 32 error_code
      → WireKeyRange range bs
      → WireBody version h 5
          (Event.get_range_error (record { header = h; error_code = error_code; range = range }))
          (wire_i32 error_code ++ bs)
  commit_error :
      (error_code : ℤ) (request : CommitRequest) (bs : List ℕ)
      → IsSigned 32 error_code
      → WireRequest version request bs
      → WireBody version h 6
          (Event.commit_error (record { header = h; error_code = error_code; request = request }))
          (wire_i32 error_code ++ bs)

pub data WireEvent (version : ProtocolVersion) : Event → List ℕ → Type 0 where
  event :
      (t : ℕ) (h : EventHeader) (x : Event) (hs bs : List ℕ)
      → t < 7
      → WireHeader h hs
      → WireBody version h t x bs
      → WireEvent version x (le_bytes 4 t ++ (hs ++ bs))
