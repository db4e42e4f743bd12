-- ===== src/Profiling.antt =====
-- foundationdb-profiling/src/event.rs: the events of the client's profiling. A byte string is the list
-- of its bytes, an `f64` its bit pattern, and a protocol version its `u64`.
pub mod Decode
pub mod Reader
pub mod Aggregate
mod Tests
use foundationdb_rs.Prelude.{ℕ, Bool, Option, List, ℤ}

abbrev pub ProtocolVersion : Type 0
ProtocolVersion = ℕ

abbrev pub v7_1 : ProtocolVersion
v7_1 = 0x0FDB_00B0_7101_0000

abbrev pub v7_2 : ProtocolVersion
v7_2 = 0x0FDB_00B0_7200_0000

abbrev pub v7_3 : ProtocolVersion
v7_3 = 0x0FDB_00B0_7300_0000

abbrev pub v7_4 : ProtocolVersion
v7_4 = 0x0FDB_00B0_7400_0000

pub record KeyRange : Type 0 where
  pub begin : List ℕ
  pub end : List ℕ

pub record EventHeader : Type 0 where
  pub start_timestamp : ℕ
  pub dc_id : List ℕ
  pub tenant : Option (List ℕ)

pub record GetVersion : Type 0 where
  pub header : EventHeader
  pub latency : ℕ
  pub priority : ℕ
  pub read_version : ℤ

pub record Get : Type 0 where
  pub header : EventHeader
  pub latency : ℕ
  pub value_size : ℤ
  pub key : List ℕ

pub record GetRange : Type 0 where
  pub header : EventHeader
  pub latency : ℕ
  pub range_size : ℤ
  pub range : KeyRange

pub record Mutation : Type 0 where
  pub mutation_type : ℕ
  pub param1 : List ℕ
  pub param2 : List ℕ

-- `Mutation::CLEAR_RANGE`
abbrev pub clear_range_type : ℕ
clear_range_type = 1

pub record SpanContext : Type 0 where
  pub trace_id : ℕ × ℕ
  pub span_id : ℕ
  pub flags : ℕ

pub record CommitRequest : Type 0 where
  pub read_conflict_ranges : List KeyRange
  pub write_conflict_ranges : List KeyRange
  pub mutations : List Mutation
  pub read_snapshot : ℤ
  pub report_conflicting_keys : Bool
  pub lock_aware : Bool
  pub span_context : Option SpanContext

pub record Commit : Type 0 where
  pub header : EventHeader
  pub latency : ℕ
  pub num_mutations : ℤ
  pub commit_bytes : ℤ
  pub commit_version : ℤ
  pub request : CommitRequest

pub record GetError : Type 0 where
  pub header : EventHeader
  pub error_code : ℤ
  pub key : List ℕ

pub record GetRangeError : Type 0 where
  pub header : EventHeader
  pub error_code : ℤ
  pub range : KeyRange

pub record CommitError : Type 0 where
  pub header : EventHeader
  pub error_code : ℤ
  pub request : CommitRequest

pub data Event : Type 0 where
  get_version : GetVersion → Event
  get : Get → Event
  get_range : GetRange → Event
  commit : Commit → Event
  get_error : GetError → Event
  get_range_error : GetRangeError → Event
  commit_error : CommitError → Event
