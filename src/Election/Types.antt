-- ===== src/Election/Types.antt =====
-- foundationdb/src/recipes/leader_election/types.rs and errors.rs: what callers exchange with the
-- election, and the state that they keep between polls. A `Duration` is its number of nanoseconds,
-- a `Rank` its `u64`, a participant its identifier's bytes.
use foundationdb_rs.Prelude.{
  ℕ, suc, ◌+◌, ◌-◌, Bool, false, Option, List, [], ◌∷◌, ◌==◌, ◌&&◌, ltb, if◌then◌else◌, length,
  Result, ok, err,
}
use foundationdb_rs.Tuple.Codes.{PackError}
use foundationdb_rs.Tuple.Subspace.{Panic}
use foundationdb_rs.Tuple.Versionstamp.{same_bytes}

abbrev pub ParticipantId : Type 0
ParticipantId = List ℕ

abbrev pub Rank : Type 0
Rank = ℕ

abbrev pub Duration : Type 0
Duration = ℕ

-- The messages of `InvalidState`.
pub data StateError : Type 0 where
  unknown_schema : ℕ → StateError
  released_with_owner no_lease_with_fields nanos_out_of_range zero_revision_not_empty : StateError
  created_without_lease zero_lease follower_of_released follower_without_lease : StateError

-- `fdb` carries the error code. `panicked` marks a panic of the tuple layer.
pub data LeaderElectionError : Type 0 where
  invalid_state : StateError → LeaderElectionError
  invalid_participant_id invalid_lease_duration revision_exhausted : LeaderElectionError
  participant_id_too_large : ℕ → ℕ → LeaderElectionError
  fdb : ℕ → LeaderElectionError
  pack_error : PackError → LeaderElectionError
  panicked : Panic → LeaderElectionError

abbrev pub max_encoded_bytes : ℕ
max_encoded_bytes = 95_000

-- The fold of `ParticipantId::new`: a zero byte costs one more.
unfoldable pub encoded_size : List ℕ → ℕ → ℕ
encoded_size [] size = size
encoded_size (b ∷ value) size = encoded_size value (if b == 0 then suc size else size)

-- `ParticipantId::new`
unfoldable pub new_participant : List ℕ → Result LeaderElectionError ParticipantId
unfolding encoded_size
new_participant [] = err invalid_participant_id
new_participant (b ∷ value) =
    let size = encoded_size (b ∷ value) (length (b ∷ value) + 2) in
    if ltb max_encoded_bytes size
    then err (participant_id_too_large size max_encoded_bytes)
    else ok (b ∷ value)

pub data PollInput : Type 0 where
  unknown : PollInput
  observation : ParticipantId → Rank → Duration → Duration → PollInput
  leadership : Rank → Duration → Duration → PollInput

pub data ObservationTimer : Type 0 where
  reset preserve : ObservationTimer

pub data NextState : Type 0 where
  leadership : Rank → Duration → NextState
  observation : ParticipantId → Rank → Duration → ObservationTimer → NextState

pub record Observation : Type 0 where
  pub owner : ParticipantId
  pub rank : Rank
  pub lease_duration : Duration
  pub first_observed_at : Duration

pub record Leadership : Type 0 where
  pub rank : Rank
  pub lease_duration : Duration
  pub last_renewed_at : Duration

pub data LocalState : Type 0 where
  unknown : LocalState
  observation : Observation → LocalState
  leadership : Leadership → LocalState

-- `LocalState::input`; `saturating_sub` is the subtraction of natural numbers.
unfoldable pub input : LocalState → Duration → PollInput
input LocalState.unknown now = PollInput.unknown
input (LocalState.observation o) now =
    PollInput.observation o.owner o.rank o.lease_duration (now - o.first_observed_at)
input (LocalState.leadership l) now =
    PollInput.leadership l.rank l.lease_duration (now - l.last_renewed_at)

-- The guard of `LocalState::adopt` that keeps an observation.
abbrev pub keeps : Observation → ParticipantId → Rank → Duration → ObservationTimer → Bool
keeps o owner rank lease_duration ObservationTimer.reset = false
keeps o owner rank lease_duration ObservationTimer.preserve =
    same_bytes o.owner owner && (o.rank == rank && o.lease_duration == lease_duration)

-- `LocalState::adopt`
unfoldable pub adopt : LocalState → Duration → Duration → NextState → LocalState
adopt local attempt_started_at adopted_at (NextState.leadership rank lease_duration) =
    LocalState.leadership (record {
      rank = rank;
      lease_duration = lease_duration;
      last_renewed_at = attempt_started_at;
    })
adopt local attempt_started_at adopted_at (NextState.observation owner rank lease_duration timer) =
    let fresh : LocalState = LocalState.observation (record {
      owner = owner;
      rank = rank;
      lease_duration = lease_duration;
      first_observed_at = adopted_at;
    }) in
    elim local [
      | LocalState.observation o ↦
          if keeps o owner rank lease_duration timer then LocalState.observation o else fresh
      | LocalState.unknown ↦ fresh
      | LocalState.leadership l ↦ fresh
    ]

pub data PollTransition : Type 0 where
  acquired renewed took_over reacquired followed : PollTransition

pub data PollOutcome : Type 0 where
  leader : Rank → PollTransition → PollOutcome
  follower : ParticipantId → Rank → Duration → PollOutcome

-- `PollOutcome::rank` and `PollOutcome::transition`
unfoldable pub outcome_rank : PollOutcome → Rank
outcome_rank (PollOutcome.leader rank transition) = rank
outcome_rank (PollOutcome.follower owner rank lease_duration) = rank

unfoldable pub transition_of : PollOutcome → PollTransition
transition_of (PollOutcome.leader rank transition) = transition
transition_of (PollOutcome.follower owner rank lease_duration) = PollTransition.followed

pub record PollResult : Type 0 where
  pub outcome : PollOutcome
  pub next : NextState

pub data ResignOutcome : Type 0 where
  resigned rejected : ResignOutcome

pub record ElectionState : Type 0 where
  pub owner : Option ParticipantId
  pub rank : Rank
  pub lease_duration : Option Duration
