-- ===== src/Election/Tests.antt =====
-- The theorems of the leader election at concrete inputs.
use foundationdb_rs.Prelude.{
  ℕ, ◌+◌, ◌^◌, ◌≡◌, ◌≢◌, ◌⊎◌, ◌↔◌, inl, inr, refl, ap, Option, none, some, List, [], ◌∷◌,
  Bool-cases, if◌then◌else◌, ok, err, arith,
}
use foundationdb_rs.Store.{Store}
use foundationdb_rs.Tuple.Bytes.{positions, Memchr, write_bytes, parse_slice}
use foundationdb_rs.Tuple.Utf8.{is_utf8}
use foundationdb_rs.Tuple.Versionstamp.{same_bytes, same_bytes-eq, same_bytes_self}
use foundationdb_rs.Tuple.Subspace.{Subspace, all}
use foundationdb_rs.Election.Types.{
  ParticipantId, Duration, LocalState, PollInput, PollOutcome, PollTransition, PollResult,
  NextState, ObservationTimer, ResignOutcome, new_participant, encoded_size, input, outcome_rank,
  revision_exhausted,
}
use foundationdb_rs.Election.Step.{DurableState, Decision, default_state, decide, step}
use foundationdb_rs.Election.Durable.{
  encode_state, decode_state, state_key, read_state, poll, state, resign,
}
use foundationdb_rs.Election.Durable.RoundTrip.{
  IsParticipant, IsLease, IsDurable, decode_state-encode_state,
}
use foundationdb_rs.Election.Durable.Operations.{poll-state, resign-state}
use foundationdb_rs.Election.Legacy.{LegacyState, legacy_step, to_new}
use foundationdb_rs.Election.Legacy.Agrees.{polled, legacy_step-polled}
use foundationdb_rs.Election.Permission.{Permits, IsRecord, next_record, decide_iff, step-cases}
use foundationdb_rs.Election.System.{Phase, System, update, initial, Step, Reach, Claims}
use foundationdb_rs.Election.System.Safety.Leader.{one_leader}

abbrev memchr : Memchr
memchr = record { iter = λ n v. positions n 0 v; iter_positions = λ n v. refl }

-- A transaction is what it reads at each key.
lookup : (List ℕ → Option (List ℕ)) → List ℕ → List ℕ → List ℕ → Option (List ℕ)
lookup t key value k = if same_bytes k key then some value else t k

lookup_other :
    (t : List ℕ → Option (List ℕ)) (key other value : List ℕ)
    → other ≢ key
    → lookup t key value other ≡ t other
unfolding lookup
lookup_other t key other value differ = elim (Bool-cases (same_bytes other key)) [
  | inl same ↦ absurd (differ (same_bytes-eq other key same))
  | inr else_where ↦ rw else_where
]

lookup_same :
    (t : List ℕ → Option (List ℕ)) (key value : List ℕ) → lookup t key value key ≡ some value
unfolding lookup
lookup_same t key value = rw (same_bytes_self key)

abbrev store : Store
store = record {
  Txn = List ℕ → Option (List ℕ);
  get = λ t k. ok (t k);
  set = lookup;
  get_set = λ t key value. ap ok (lookup_same t key value);
  get_set_other = λ t key other value differ. ap ok (lookup_other t key other value differ);
}

abbrev alice : ParticipantId
alice = 0x61 ∷ []

abbrev bob : ParticipantId
bob = 0x62 ∷ []

abbrev alice_fine : IsParticipant alice
unfolding new_participant encoded_size is_utf8
alice_fine = (refl, refl)

abbrev bob_fine : IsParticipant bob
unfolding new_participant encoded_size is_utf8
bob_fine = (refl, refl)

abbrev ten_fine : IsLease 10
ten_fine = (omega arith, omega arith)

-- Bob leads with rank 3.
abbrev bobs : DurableState
bobs = record { revision = 3; owner = some bob; lease_duration = some 10 }

abbrev bobs_fine : IsDurable bobs
bobs_fine = (omega arith, bob_fine, (omega arith, ten_fine))

abbrev bob_observed : PollInput
bob_observed = PollInput.observation bob 3 10 12

abbrev bob_over : Permits bobs alice bob_observed
bob_over = Permits.expiry (refl, refl, refl) (omega arith)

decode_state-encode_state_example :
    (value : List ℕ) × (encode_state memchr bobs ≡ ok value) × (decode_state memchr value ≡ ok bobs)
decode_state-encode_state_example = decode_state-encode_state memchr bobs bobs_fine

decide_iff_example :
    ((how : PollTransition) × (decide bobs alice bob_observed ≡ Decision.leader how))
    ↔ Permits bobs alice bob_observed
decide_iff_example = decide_iff bobs alice bob_observed

step-cases_example :
    (Permits bobs alice bob_observed
      × IsDurable (next_record bobs alice 10)
      × ((how : PollTransition) × (step bobs alice 10 bob_observed
            ≡ ok (
              record {
                outcome = PollOutcome.leader (3 + 1) how;
                next = NextState.leadership (3 + 1) 10;
              },
              some (next_record bobs alice 10),
            ))))
    ⊎ ((Permits bobs alice bob_observed
          × (3 + 1 ≡ 2 ^ 64)
          × (step bobs alice 10 bob_observed ≡ err revision_exhausted))
        ⊎ ((Permits bobs alice bob_observed → ⊥)
            × ((owner : ParticipantId) × (lease : Duration) × (timer : ObservationTimer) × IsRecord
                  bobs owner 3 lease
                × (step bobs alice 10 bob_observed
                    ≡ ok (
                      record {
                        outcome = PollOutcome.follower owner 3 lease;
                        next = NextState.observation owner 3 lease timer;
                      },
                      none,
                    )))))
step-cases_example = step-cases bobs alice 10 bob_observed bobs_fine alice_fine ten_fine

abbrev seen_bob : LegacyState
seen_bob =
    LegacyState.observation
      (record { owner = bob; rank = 3; lease_duration = 10; first_observed_at = 1 })

legacy_step-polled_example :
    legacy_step bobs 10 alice seen_bob 12 13
    ≡ some (polled bobs 10 alice (to_new seen_bob alice) 12 13)
legacy_step-polled_example = legacy_step-polled bobs 10 alice seen_bob 12 13 bobs_fine

abbrev election_key : List ℕ
election_key = 0x02 ∷ 0x73 ∷ 0x74 ∷ 0x61 ∷ 0x74 ∷ 0x65 ∷ 0x00 ∷ []

-- (1, 3, true, "b", true, 0, 10)
abbrev bobs_bytes : List ℕ
bobs_bytes = 0x15 ∷ 0x01 ∷ 0x15 ∷ 0x03 ∷ 0x27 ∷ 0x02 ∷ 0x62 ∷ 0x00 ∷ 0x27 ∷ 0x14 ∷ 0x15 ∷ 0x0a ∷ []

abbrev bobs_txn : List ℕ → Option (List ℕ)
bobs_txn k = some bobs_bytes

keyed : state_key memchr all ≡ ok election_key
unfolding state_key all foundationdb_rs.Tuple.Subspace.pack foundationdb_rs.Tuple.Element.pack_root
    foundationdb_rs.Tuple.Element.pack_element foundationdb_rs.Tuple.Element.pack_str write_bytes
keyed = refl

reads_bob : read_state memchr store bobs_txn election_key ≡ ok bobs
unfolding read_state foundationdb_rs.Tuple.Typed.unpack_typed
    foundationdb_rs.Tuple.Integers.unpack_uint foundationdb_rs.Tuple.Element.unpack_bool
    foundationdb_rs.Tuple.Element.unpack_str parse_slice is_utf8
    foundationdb_rs.Tuple.Words.from_be_bytes new_participant
reads_bob = refl

poll-state_example :
    (result : PollResult) × (txn' : store.Txn) × (poll memchr store bobs_txn all 10 alice
        bob_observed
      ≡ ok (result, txn'))
    × (outcome_rank result.outcome ≡ 3 + 1)
    × (state memchr store txn' all
        ≡ ok (record { owner = some alice; rank = 3 + 1; lease_duration = some 10 }))
poll-state_example =
    poll-state memchr store bobs_txn all 10 alice bob_observed election_key bobs keyed reads_bob
      bobs_fine alice_fine ten_fine bob_over (omega arith)

resign-state_example :
    (IsRecord bobs bob 3 10
      × (txn' : store.Txn) × (resign memchr store bobs_txn all bob 3 10
          ≡ ok (ResignOutcome.resigned, txn'))
      × (state memchr store txn' all
          ≡ ok (record { owner = none; rank = 3; lease_duration = some 10 })))
    ⊎ ((IsRecord bobs bob 3 10 → ⊥)
        × (resign memchr store bobs_txn all bob 3 10 ≡ ok (ResignOutcome.rejected, bobs_txn)))
resign-state_example =
    resign-state memchr store bobs_txn all bob 3 10 election_key bobs keyed reads_bob bobs_fine

abbrev lease_of : ParticipantId → Duration
lease_of p = 10

abbrev alice_started : System
alice_started = record initial { phase = update (initial).phase alice (Phase.started 0) }

abbrev alice_leads : System
alice_leads = record alice_started {
  durable = next_record default_state alice 10;
  phase = update (alice_started).phase alice (Phase.committed 0 (NextState.leadership 1 10));
}

alice_acquires :
    step default_state alice 10 (input LocalState.unknown 0)
    ≡ ok (
      record {
        outcome = PollOutcome.leader 1 PollTransition.acquired;
        next = NextState.leadership 1 10;
      },
      some (next_record default_state alice 10),
    )
unfolding step
alice_acquires = refl

alice_reached : Reach lease_of alice_leads
unfolding same_bytes
alice_reached =
    Reach.next (Reach.next Reach.begin (Step.start initial alice refl))
      (Step.commit alice_started alice 0 _ _ alice_fine ten_fine refl alice_acquires)

one_leader_example : alice ≡ alice
unfolding same_bytes
one_leader_example =
    one_leader lease_of alice_leads alice alice 1 10 0 1 10 0 alice_reached (Claims.staged refl)
      (Claims.staged refl) (omega arith) (omega arith)
