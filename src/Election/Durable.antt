-- ===== src/Election/Durable.antt =====
-- foundationdb/src/recipes/leader_election/algorithm.rs and keys.rs: the durable state in its key, and
-- the operations in a transaction.
pub mod RoundTrip
pub mod Operations
use foundationdb_rs.Prelude.{
  ℕ, zero, suc, ◌+◌, ◌*◌, ◌/◌, ◌%◌, Bool, true, false, Option, none, some, List, [], ◌∷◌, ◌==◌,
  ◌&&◌, ◌||◌, not, ltb, leb, if◌then◌else◌, Result, ok, err, ◌>>=◌,
}
use foundationdb_rs.Store.{Store}
use foundationdb_rs.Tuple.Codes.{PackError}
use foundationdb_rs.Tuple.Bytes.{Memchr}
use foundationdb_rs.Tuple.Element.{string, tuple, no_more, more}
use foundationdb_rs.Tuple.Subspace.{Panic, Subspace, expect_packed, pack}
use foundationdb_rs.Tuple.Typed.{Shape, u64, u32, boolean, text, Values, pack_typed, unpack_typed}
use foundationdb_rs.Election.Types.{
  ParticipantId, Rank, Duration, LeaderElectionError, StateError, unknown_schema,
  released_with_owner, no_lease_with_fields, nanos_out_of_range, zero_revision_not_empty,
  created_without_lease, zero_lease, invalid_state, fdb, pack_error, panicked, new_participant,
  PollInput, PollResult, ResignOutcome, ElectionState,
}
use foundationdb_rs.Election.Step.{DurableState, default_state, step, resign_step}

abbrev pub schema_version : ℕ
schema_version = 1

abbrev pub nanos_per_sec : ℕ
nanos_per_sec = 1_000_000_000

-- STATE_PREFIX, in UTF-8
abbrev pub state_prefix : List ℕ
state_prefix = 0x73 ∷ 0x74 ∷ 0x61 ∷ 0x74 ∷ 0x65 ∷ []

-- The type of the stored tuple
abbrev pub fields : List Shape
fields = u64 ∷ u64 ∷ boolean ∷ text ∷ boolean ∷ u64 ∷ u32 ∷ []

abbrev pub no_panic {ℓ} : {A : Type ℓ} → Result Panic A → Result LeaderElectionError A
no_panic (ok a) = ok a
no_panic (err p) = err (panicked p)

abbrev pub unpacked {ℓ} : {A : Type ℓ} → Result PackError A → Result LeaderElectionError A
unpacked (ok a) = ok a
unpacked (err e) = err (pack_error e)

abbrev pub fdb_result {ℓ} : {A : Type ℓ} → Result ℕ A → Result LeaderElectionError A
fdb_result (ok a) = ok a
fdb_result (err e) = err (fdb e)

-- The owner of a decoded record
unfoldable pub decode_owner : Bool → List ℕ → Result LeaderElectionError (Option ParticipantId)
decode_owner true owner = do participant ← new_participant owner; ok (some participant)
decode_owner false [] = ok none
decode_owner false (b ∷ owner) = err (invalid_state released_with_owner)

unfoldable pub decode_lease : Bool → ℕ → ℕ → Result LeaderElectionError (Option Duration)
decode_lease false secs nanos =
    if not (secs == 0) || not (nanos == 0)
    then err (invalid_state no_lease_with_fields)
    else ok none
decode_lease true secs nanos =
    if leb nanos_per_sec nanos
    then err (invalid_state nanos_out_of_range)
    else ok (some (secs * nanos_per_sec + nanos))

abbrev is_some {ℓ} : {A : Type ℓ} → Option A → Bool
is_some none = false
is_some (some a) = true

abbrev is_zero_lease : Option Duration → Bool
is_zero_lease none = false
is_zero_lease (some l) = l == 0

-- The checks of `decode_state` on the whole record
unfoldable pub check_state :
    ℕ → Option ParticipantId → Option Duration → Result LeaderElectionError DurableState
check_state revision owner lease_duration =
    if revision == 0 && (is_some owner || is_some lease_duration)
    then err (invalid_state zero_revision_not_empty)
    else if ltb 0 revision && not (is_some lease_duration)
    then err (invalid_state created_without_lease)
    else if is_zero_lease lease_duration
    then err (invalid_state zero_lease)
    else ok (record { revision = revision; owner = owner; lease_duration = lease_duration })

-- `decode_state`, behind `unpack`
unfoldable pub decode_fields : Values fields → Result LeaderElectionError DurableState
unfolding decode_owner decode_lease check_state
decode_fields (schema, (revision, (has_owner, (owner, (has_lease_duration, (secs, (nanos, _))))))) =
    if not (schema == schema_version)
    then err (invalid_state (unknown_schema schema))
    else (decode_owner has_owner owner >>= λ owner.
        decode_lease has_lease_duration secs nanos >>= λ lease_duration.
        check_state revision owner lease_duration)

-- `map_or("", as_str)`
abbrev owner_text : Option ParticipantId → List ℕ
owner_text none = []
owner_text (some o) = o

abbrev pub lease_nanos : Option Duration → ℕ
lease_nanos none = 0
lease_nanos (some l) = l

unfoldable pub state_fields : DurableState → Values fields
state_fields s = (
  schema_version,
  (
    s.revision,
    (
      is_some s.owner,
      (
        owner_text s.owner,
        (
          is_some s.lease_duration,
          (
            lease_nanos s.lease_duration / nanos_per_sec,
            (lease_nanos s.lease_duration % nanos_per_sec, tt),
          ),
        ),
      ),
    ),
  ),
)

module _ (m : Memchr) where
  unfoldable pub decode_state : List ℕ → Result LeaderElectionError DurableState
  unfolding decode_fields
  decode_state value = do vs ← unpacked (unpack_typed m fields value); decode_fields vs

  unfoldable pub encode_state : DurableState → Result Panic (List ℕ)
  unfolding state_fields
  encode_state s = do (bs, _) ← expect_packed (pack_typed m fields (state_fields s)); ok bs

  unfoldable pub state_key : Subspace → Result Panic (List ℕ)
  state_key s = pack m s (tuple (more (string state_prefix) no_more))

  module _ (db : Store) where
    unfoldable pub read_state : db.Txn → List ℕ → Result LeaderElectionError DurableState
    unfolding decode_state
    read_state txn key = do
      value ← fdb_result (db.get txn key)
      elim value [ none ↦ ok default_state | some bytes ↦ decode_state bytes ]

    unfoldable pub write_state : db.Txn → List ℕ → DurableState → Result LeaderElectionError db.Txn
    unfolding encode_state
    write_state txn key s = do value ← no_panic (encode_state s); ok (db.set txn key value)

    -- The writes of `poll` and of `resign`, where there are any
    unfoldable pub write_next :
        db.Txn → List ℕ → Option DurableState → Result LeaderElectionError db.Txn
    unfolding write_state
    write_next txn key none = ok txn
    write_next txn key (some s) = write_state txn key s

    unfoldable pub poll :
        db.Txn
        → Subspace
        → Duration
        → ParticipantId
        → PollInput
        → Result LeaderElectionError (PollResult × db.Txn)
    unfolding state_key read_state step write_next
    poll txn s lease_duration participant input = do
      key ← no_panic (state_key s)
      current ← read_state txn key
      (result, next_state) ← step current participant lease_duration input
      txn' ← write_next txn key next_state
      ok (result, txn')

    unfoldable pub state : db.Txn → Subspace → Result LeaderElectionError ElectionState
    unfolding state_key read_state
    state txn s = do
      key ← no_panic (state_key s)
      current ← read_state txn key
      ok (record {
        owner = current.owner;
        rank = current.revision;
        lease_duration = current.lease_duration;
      })

    unfoldable pub resign :
        db.Txn
        → Subspace
        → ParticipantId
        → Rank
        → Duration
        → Result LeaderElectionError (ResignOutcome × db.Txn)
    unfolding state_key read_state resign_step write_next
    resign txn s participant rank lease_duration = do
      key ← no_panic (state_key s)
      current ← read_state txn key
      let (outcome, next_state) = resign_step current participant rank lease_duration
      txn' ← write_next txn key next_state
      ok (outcome, txn')
