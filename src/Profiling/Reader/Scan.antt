-- ===== src/Profiling/Reader/Scan.antt =====
-- foundationdb-profiling/src/reader.rs: pages, which are read from a stream. A stream is the list of its
-- items, each row with the answer of `should_stop` after it.
use foundationdb_rs.Prelude.{
  ℕ, Bool, true, false, not, ◌||◌, Option, none, some, List, [], ◌∷◌, if◌then◌else◌, Result, ok,
  err, ℤ,
}
use foundationdb_rs.Tuple.Compare.Total.{before}
use foundationdb_rs.Profiling.{ProtocolVersion, Event}
use foundationdb_rs.Profiling.Decode.{DecodeError, decode_events}
use foundationdb_rs.Profiling.Reader.Keys.{Cursor, ProfileScanner, ScanRange, range, version_of}
use foundationdb_rs.Profiling.Reader.Process.{Assembled, Output, Assembler, new, push}
use foundationdb_rs.Profiling.Reader.Finish.{settle}

pub record ProfiledTransaction : Type 0 where
  pub version : ℤ
  pub versionstamp : List ℕ
  pub id : List ℕ
  pub protocol_version : ProtocolVersion
  pub events : List Event

pub data SkipReason : Type 0 where
  decode : DecodeError → SkipReason
  broken_chunks : SkipReason

pub record Skipped : Type 0 where
  pub versionstamp : List ℕ
  pub id : List ℕ
  pub reason : SkipReason

pub record Page : Type 0 where
  pub transactions : List ProfiledTransaction
  pub skipped : List Skipped
  pub next : Cursor
  pub exhausted : Bool

-- The decoded outputs: `decode_events` comes to an end at every blob.
unfoldable pub sorted_out : List Output → List ProfiledTransaction × List Skipped
sorted_out [] = ([], [])
sorted_out (o ∷ outputs) =
    let rest = sorted_out outputs in
    elim o.assembled [
      | Assembled.broken versionstamp id ↦
          (rest.0, record { versionstamp = versionstamp; id = id; reason = broken_chunks } ∷ rest.1)
      | Assembled.complete versionstamp id blob ↦ elim (decode_events blob) [
        | none ↦ rest
        | some (err e) ↦
            (rest.0, record { versionstamp = versionstamp; id = id; reason = decode e } ∷ rest.1)
        | some (ok (protocol_version, events)) ↦ (
          record {
            version = version_of versionstamp;
            versionstamp = versionstamp;
            id = id;
            protocol_version = protocol_version;
            events = events;
          }
              ∷ rest.0,
          rest.1,
        )
      ]
    ]

-- `Assembler::finish`
unfoldable pub finish : Assembler → Bool → Page
unfolding settle sorted_out
finish a stopped =
    let settled = settle a stopped in
    let out = sorted_out settled.0 in
    record {
      transactions = out.0;
      skipped = out.1;
      next = record { key = settled.1 };
      exhausted = not stopped;
    }

-- What the stream gives: a row, and whether the scan should stop after it, or an error.
pub data Item : Type 0 where
  row : List ℕ → List ℕ → Bool → Item
  failed : ℕ → Item

pub data ScanError : Type 0 where
  source : ℕ → ScanError
  invalid_rows : List ℕ → ScanError

abbrev pub in_order : Option (List ℕ) → List ℕ → Bool
in_order none key = true
in_order (some last) key = before last key

-- The loop of `ProfileScanner::read_page`, with whether it stopped
unfoldable pub read_rows : ScanRange → Assembler → List Item → Result ScanError (Assembler × Bool)
unfolding push
read_rows range a [] = ok (a, false)
read_rows range a (failed e ∷ items) = err (source e)
read_rows range a (row key value stop ∷ items) =
    let pushed = push a key value in
    let rest : Result ScanError (Assembler × Bool) = read_rows range pushed items in
    if before key range.begin || (not (before key range.end) || not (in_order a.last_key key))
    then err (invalid_rows key)
    else if stop
    then ok (pushed, true)
    else rest

-- `ProfileScanner::read_page`
unfoldable pub read_page : ProfileScanner → Cursor → List Item → Result ScanError Page
unfolding read_rows finish
read_page scanner cursor items = elim (read_rows (range scanner cursor) (new cursor) items) [
  | err e ↦ err e
  | ok (a, stopped) ↦ ok (finish a stopped)
]
