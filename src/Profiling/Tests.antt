-- ===== src/Profiling/Tests.antt =====
-- The theorems on profiling at concrete inputs.
use foundationdb_rs.Prelude.{
  ℕ, ◌+◌, ◌≡◌, refl, arith, false, true, some, List, [], ◌∷◌, ◌++◌, Result, ok, pos,
}
use foundationdb_rs.Tuple.Subspace.{le_bytes}
use foundationdb_rs.Profiling.{
  ProtocolVersion, v7_1, v7_4, EventHeader, Mutation, KeyRange, CommitRequest, SpanContext, Event,
}
use foundationdb_rs.Profiling.Decode.{DecodeError, decode_events}
use foundationdb_rs.Profiling.Decode.Progress.{decode_events_total}
use foundationdb_rs.Profiling.Decode.Blob.{decode_events-wire}
use foundationdb_rs.Profiling.Decode.Wire

decode_events_total_example :
    (result : Result DecodeError (ProtocolVersion × List Event)) × (decode_events
        (le_bytes 8 v7_1 ++ 9 ∷ [])
      ≡ some result)
decode_events_total_example = decode_events_total (le_bytes 8 v7_1 ++ 9 ∷ [])

abbrev some_header : EventHeader
some_header = record { start_timestamp = 1; dc_id = []; tenant = some (7 ∷ []) }

abbrev header_bytes : List ℕ
header_bytes =
    le_bytes 8 1 ++ (Wire.wire_text [] ++ (Wire.wire_bool true ++ Wire.wire_text (7 ∷ [])))

abbrev some_range : KeyRange
some_range = record { begin = 97 ∷ []; end = 97 ∷ 0 ∷ [] }

abbrev range_bytes : List ℕ
range_bytes = Wire.wire_text (97 ∷ 0 ∷ []) ++ Wire.wire_text []

abbrev some_clear : Mutation
some_clear = record { mutation_type = 1; param1 = 97 ∷ []; param2 = 97 ∷ 0 ∷ [] }

abbrev clear_bytes : List ℕ
clear_bytes = Wire.wire_mutation (1 + 192) (97 ∷ 0 ∷ []) (1 ∷ 2 ∷ 3 ∷ 4 ∷ 5 ∷ 6 ∷ [])

abbrev some_span : SpanContext
some_span = record { trace_id = (1, 2); span_id = 3; flags = 4 }

abbrev span_bytes : List ℕ
span_bytes = le_bytes 8 1 ++ (le_bytes 8 2 ++ (le_bytes 8 3 ++ le_bytes 1 4))

abbrev some_request : CommitRequest
some_request = record {
  read_conflict_ranges = some_range ∷ [];
  write_conflict_ranges = [];
  mutations = some_clear ∷ [];
  read_snapshot = pos 12;
  report_conflicting_keys = false;
  lock_aware = true;
  span_context = some some_span;
}

abbrev request_bytes : List ℕ
request_bytes =
    (le_bytes 4 1 ++ (range_bytes ++ []))
    ++ ((le_bytes 4 0 ++ [])
        ++ ((le_bytes 4 1 ++ (clear_bytes ++ []))
            ++ (Wire.wire_i64 (pos 12)
                ++ (Wire.wire_bool false
                    ++ (Wire.wire_bool true ++ (Wire.wire_bool true ++ span_bytes))))))

abbrev some_event : Event
some_event =
    Event.commit_error
      (record { header = some_header; error_code = pos 1020; request = some_request })

abbrev event_bytes : List ℕ
event_bytes = le_bytes 4 6 ++ (header_bytes ++ (Wire.wire_i32 (pos 1020) ++ request_bytes))

event-wire : Wire.WireEvent v7_4 some_event event_bytes
event-wire =
    Wire.WireEvent.event 6 some_header some_event header_bytes
      (Wire.wire_i32 (pos 1020) ++ request_bytes) (omega arith)
      (Wire.WireHeader.header some_header (Wire.wire_bool true ++ Wire.wire_text (7 ∷ []))
        (omega arith) (omega arith)
        (Wire.WireOption.present (7 ∷ []) (Wire.wire_text (7 ∷ []))
          (Wire.WireText.text (7 ∷ []) (omega arith))))
      (Wire.WireBody.commit_error (pos 1020) some_request request_bytes (omega arith) (
        Wire.WireRequest.request some_request (le_bytes 4 1 ++ (range_bytes ++ []))
          (le_bytes 4 0 ++ []) (le_bytes 4 1 ++ (clear_bytes ++ []))
          (Wire.wire_bool true ++ span_bytes)
          (Wire.WireVec.vec (some_range ∷ []) (range_bytes ++ []) (omega arith) (
            Wire.WireAll.cons some_range [] range_bytes []
              (Wire.WireConflict.single (97 ∷ []) range_bytes (
                Wire.WireKeyRange.range (record { begin = 97 ∷ 0 ∷ []; end = [] }) (omega arith)
                  (omega arith)))
              Wire.WireAll.nil))
          (Wire.WireVec.vec [] [] (omega arith) Wire.WireAll.nil)
          (Wire.WireVec.vec (some_clear ∷ []) (clear_bytes ++ []) (omega arith) (
            Wire.WireAll.cons some_clear [] clear_bytes []
              (Wire.WireMutation.single (97 ∷ []) 192 (1 ∷ 2 ∷ 3 ∷ 4 ∷ 5 ∷ 6 ∷ []) (omega arith)
                (omega arith) (Wire.IsChecksum.indexed (1 ∷ 2 ∷ 3 ∷ 4 ∷ 5 ∷ 6 ∷ []) refl))
              Wire.WireAll.nil))
          (omega arith)
          (Wire.WireOption.present some_span span_bytes (
            Wire.WireSpan.otel some_span refl (omega arith) (omega arith) (omega arith)
              (omega arith)))))

decode_events-wire_example :
    decode_events (le_bytes 8 v7_4 ++ (event_bytes ++ [])) ≡ some (ok (v7_4, some_event ∷ []))
decode_events-wire_example =
    decode_events-wire v7_4 (some_event ∷ []) (event_bytes ++ []) refl (omega arith)
      (Wire.WireAll.cons some_event [] event_bytes [] event-wire Wire.WireAll.nil)
