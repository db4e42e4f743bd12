-- ===== src/Register/Operations.antt =====
-- foundationdb/src/recipes/ranked_register/algorithm.rs, keys.rs and errors.rs: the operations of the
-- register in a transaction. `Binding` of `RankedRegisterError` carries an error of the retry loop,
-- which no operation makes; `panicked` marks a panic of the tuple layer.
use foundationdb_rs.Prelude.{
  ℕ, zero, suc, ◌+◌, ◌/◌, ◌%◌, ◌^◌, Bool, true, false, Option, none, some, List, [], ◌∷◌, ◌++◌,
  ◌==◌, ◌||◌, not, ltb, leb, if◌then◌else◌, length, take, drop, Result, ok, err, ◌>>=◌,
}
use foundationdb_rs.Store.Ranges.{RangeStore, Row}
use foundationdb_rs.Tuple.Codes.{PackError, bad_prefix}
use foundationdb_rs.Tuple.Bytes.{Memchr}
use foundationdb_rs.Tuple.Element.{string, tuple, no_more, more}
use foundationdb_rs.Tuple.Subspace.{
  Panic, Subspace, expect_packed, pack, subspace, range, is_start_of,
}
use foundationdb_rs.Tuple.Typed.{Shape, u64, Values, pack_typed, unpack_typed}

abbrev pub max_value_chunk_bytes : ℕ
max_value_chunk_bytes = 100_000

abbrev pub state_schema_version : ℕ
state_schema_version = 1

-- The messages of `InvalidState`
pub data RegisterStateError : Type 0 where
  bad_metadata bad_chunk_key : PackError → RegisterStateError
  unknown_version : ℕ → RegisterStateError
  chunks_without_metadata index_out_of_domain too_many_chunks : RegisterStateError
  not_contiguous : ℕ → ℕ → RegisterStateError

pub data RankedRegisterError : Type 0 where
  fdb : ℕ → RankedRegisterError
  pack_error : PackError → RankedRegisterError
  invalid_state : RegisterStateError → RankedRegisterError
  value_too_large : ℕ → ℕ → RankedRegisterError
  panicked : Panic → RankedRegisterError

pub record MetadataState : Type 0 where
  pub max_read_rank : ℕ
  pub max_write_rank : ℕ

pub record RegisterState : Type 0 where
  pub max_read_rank : ℕ
  pub max_write_rank : ℕ
  pub value : Option (List ℕ)

pub record ReadResult : Type 0 where
  pub write_rank : ℕ
  pub value : Option (List ℕ)

pub data WriteResult : Type 0 where
  committed aborted : WriteResult

abbrev pub no_panic {ℓ} : {A : Type ℓ} → Result Panic A → Result RankedRegisterError A
no_panic (ok a) = ok a
no_panic (err p) = err (panicked p)

-- `?` on an `FdbError`
abbrev pub fdb_result {ℓ} : {A : Type ℓ} → Result ℕ A → Result RankedRegisterError A
fdb_result (ok a) = ok a
fdb_result (err e) = err (fdb e)

-- `map_err` of an error of unpacking
abbrev pub unpacked {ℓ} :
    {A : Type ℓ}
    → (PackError → RegisterStateError)
    → Result PackError A
    → Result RankedRegisterError A
unpacked message (ok a) = ok a
unpacked message (err e) = err (invalid_state (message e))

-- `STATE_PREFIX` and `VALUE_PREFIX`, in UTF-8
abbrev pub state_prefix : List ℕ
state_prefix = 0x73 ∷ 0x74 ∷ 0x61 ∷ 0x74 ∷ 0x65 ∷ []

abbrev pub value_prefix : List ℕ
value_prefix = 0x76 ∷ 0x61 ∷ 0x6c ∷ 0x75 ∷ 0x65 ∷ []

abbrev pub metadata_fields : List Shape
metadata_fields = u64 ∷ u64 ∷ u64 ∷ []

abbrev pub index_fields : List Shape
index_fields = u64 ∷ []

-- `unwrap_or_default`
abbrev pub metadata_or_default : Option MetadataState → MetadataState
metadata_or_default none = record { max_read_rank = 0; max_write_rank = 0 }
metadata_or_default (some s) = s

abbrev pub is_some {ℓ} : {A : Type ℓ} → Option A → Bool
is_some none = false
is_some (some a) = true

-- `slice::chunks`, with fuel: one unit for each chunk, and no chunk is empty
unfoldable pub chunks : ℕ → ℕ → List ℕ → List (List ℕ)
chunks zero size v = []
chunks (suc fuel) size [] = []
chunks (suc fuel) size (b ∷ v) = take size (b ∷ v) ∷ chunks fuel size (drop size (b ∷ v))

-- `value_chunk_count`
unfoldable pub value_chunk_count : ℕ → ℕ
value_chunk_count value_len =
    if value_len == 0
    then 1
    else value_len / max_value_chunk_bytes
      + (if value_len % max_value_chunk_bytes == 0 then 0 else 1)

-- `validate_value_index`
abbrev pub validate_value_index : ℕ → ℕ → Result RankedRegisterError (Unit {0})
validate_value_index expected actual =
    if actual == expected then ok tt else err (invalid_state (not_contiguous actual expected))

-- `checked_add(1)` of the expected index
abbrev pub next_index : ℕ → Result RankedRegisterError ℕ
next_index index =
    if ltb (index + 1) (2 ^ 64) then ok (index + 1) else err (invalid_state index_out_of_domain)

-- `u64::try_from` of the place of a chunk
abbrev pub index_of : ℕ → Result RankedRegisterError ℕ
index_of index = if ltb index (2 ^ 64) then ok index else err (invalid_state too_many_chunks)

-- The guard of `write` on the value's size: `max_value_bytes.filter(..)`
abbrev pub check_size : Option ℕ → ℕ → Result RankedRegisterError (Unit {0})
check_size none size = ok tt
check_size (some limit) size = if ltb limit size then err (value_too_large size limit) else ok tt

module _ (m : Memchr) where
  unfoldable pub state_key : Subspace → Result Panic (List ℕ)
  state_key s = pack m s (tuple (more (string state_prefix) no_more))

  unfoldable pub value_subspace : Subspace → Result Panic Subspace
  value_subspace s = subspace m s (tuple (more (string value_prefix) no_more))

  -- `Subspace::pack` and `Subspace::unpack` of a tuple of one `u64`
  abbrev pub pack_index : Subspace → ℕ → Result Panic (List ℕ)
  pack_index s index =
      expect_packed (pack_typed m index_fields (index, tt)) >>= λ (bs, _). ok (s.prefix ++ bs)

  abbrev pub unpack_index : Subspace → List ℕ → Result PackError (Values index_fields)
  unpack_index s key =
      if not (is_start_of s key)
      then err bad_prefix
      else unpack_typed m index_fields (drop (length s.prefix) key)

  unfoldable pub value_key : Subspace → ℕ → Result Panic (List ℕ)
  unfolding value_subspace
  value_key s index = do values ← value_subspace s; pack_index values index

  unfoldable pub decode_metadata : List ℕ → Result RankedRegisterError MetadataState
  decode_metadata value = do
    (version, (max_read_rank, (max_write_rank, _))) ←
        unpacked bad_metadata (unpack_typed m metadata_fields value)
    if version == state_schema_version
        then ok (record { max_read_rank = max_read_rank; max_write_rank = max_write_rank })
        else err (invalid_state (unknown_version version))

  unfoldable pub decode_value_index : Subspace → List ℕ → Result RankedRegisterError ℕ
  decode_value_index values key = do
    (index, _) ← unpacked bad_chunk_key (unpack_index values key)
    ok index

  -- The loop of `read_value`: the rows that are left with the error that ends them, the index that is
  -- expected, the value so far, and whether there was a chunk.
  unfoldable pub read_chunks :
      Bool
      → Subspace
      → Option ℕ
      → List Row
      → ℕ
      → List ℕ
      → Bool
      → Result RankedRegisterError (Option (List ℕ))
  unfolding decode_value_index
  read_chunks has_metadata values none [] expected value has_chunks =
      ok (if has_chunks then some value else none)
  read_chunks has_metadata values (some e) [] expected value has_chunks = err (fdb e)
  read_chunks has_metadata values ending ((key, chunk) ∷ rows) expected value has_chunks =
      let rest : Result RankedRegisterError (Option (List ℕ)) =
        decode_value_index values key >>= λ index. validate_value_index expected index >>= λ _.
        next_index expected >>= λ next.
        read_chunks has_metadata values ending rows next (value ++ chunk) true in
      if not has_metadata then err (invalid_state chunks_without_metadata) else rest

  module _ (db : RangeStore) where
    unfoldable pub read_metadata :
        db.Txn → List ℕ → Result RankedRegisterError (Option MetadataState)
    unfolding decode_metadata
    read_metadata txn key = do
      value ← fdb_result (db.get txn key)
      elim value [ none ↦ ok none | some bytes ↦ decode_metadata bytes >>= λ s. ok (some s) ]

    unfoldable pub write_metadata :
        db.Txn → List ℕ → MetadataState → Result RankedRegisterError db.Txn
    write_metadata txn key s = do
      (value, _) ← no_panic (
          expect_packed (
            pack_typed m metadata_fields
              (state_schema_version, (s.max_read_rank, (s.max_write_rank, tt)))))
      ok (db.set txn key value)

    unfoldable pub read_value :
        db.Txn → Subspace → Bool → Result RankedRegisterError (Option (List ℕ))
    unfolding value_subspace read_chunks
    read_value txn s has_metadata = do
      values ← no_panic (value_subspace s)
      let (begin, end) = range values
      let (rows, ending) = db.stream txn begin end
      read_chunks has_metadata values ending rows 0 [] false

    -- The loop of `write_value`
    unfoldable pub write_chunks :
        db.Txn → Subspace → List (List ℕ) → ℕ → Result RankedRegisterError db.Txn
    unfolding value_key
    write_chunks txn s [] place = ok txn
    write_chunks txn s (chunk ∷ rest) place = index_of place >>= λ index.
        no_panic (value_key s index) >>= λ key.
        write_chunks (db.set txn key chunk) s rest (place + 1)

    -- `write_value`, with the number of chunks
    unfoldable pub write_value :
        db.Txn → Subspace → List ℕ → Result RankedRegisterError (db.Txn × ℕ)
    write_value txn s value = do
      values ← no_panic (value_subspace s)
      let (begin, end) = range values
      let cleared = db.clear_range txn begin end
      elim value [
        | [] ↦ no_panic (value_key s 0) >>= λ key. ok (db.set cleared key [], 1)
        | b ∷ v ↦
            write_chunks cleared s (chunks (length (b ∷ v)) max_value_chunk_bytes (b ∷ v)) 0
            >>= λ txn'. ok (txn', value_chunk_count (length (b ∷ v)))
      ]

    unfoldable pub read : db.Txn → Subspace → ℕ → Result RankedRegisterError (ReadResult × db.Txn)
    unfolding state_key read_metadata read_value write_metadata
    read txn s rank = do
      key ← no_panic (state_key s)
      maybe_state ← read_metadata txn key
      let state = metadata_or_default maybe_state
      value ← read_value txn s (is_some maybe_state)
      txn' ←
          (if ltb state.max_read_rank rank
            then write_metadata txn key (record state { max_read_rank = rank })
            else ok txn)
      ok (record { write_rank = state.max_write_rank; value = value }, txn')

    unfoldable pub write :
        db.Txn
        → Subspace
        → ℕ
        → List ℕ
        → Option ℕ
        → Result RankedRegisterError (WriteResult × db.Txn)
    unfolding state_key read_metadata write_metadata write_value
    write txn s rank value max_value_bytes = do
      _ ← check_size max_value_bytes (length value)
      key ← no_panic (state_key s)
      maybe_state ← read_metadata txn key
      let state = metadata_or_default maybe_state
      let stored : Result RankedRegisterError (WriteResult × db.Txn) =
          write_metadata txn key (record state { max_write_rank = rank }) >>= λ txn'.
          write_value txn' s value >>= λ (txn'', _). ok (WriteResult.committed, txn'')
      if ltb rank state.max_read_rank || leb rank state.max_write_rank
          then ok (WriteResult.aborted, txn)
          else stored

    unfoldable pub value : db.Txn → Subspace → Result RankedRegisterError (Option (List ℕ))
    unfolding state_key read_metadata read_value
    value txn s = do
      key ← no_panic (state_key s)
      maybe_state ← read_metadata txn key
      read_value txn s (is_some maybe_state)
