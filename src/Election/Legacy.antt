-- ===== src/Election/Legacy.antt =====
-- The module `legacy` of the tests of foundationdb/src/recipes/leader_election/algorithm.rs: the poll
-- with the clock inside, which the clock-free poll is to agree with. An `unwrap` of `None` is `none`.
pub mod Agrees
use foundationdb_rs.Prelude.{
  ℕ, ◌-◌, Bool, true, false, Option, none, some, ◌==◌, ◌&&◌, leb, ltb, if◌then◌else◌, Result, ok,
  err, ◌>>=◌,
}
use foundationdb_rs.Tuple.Versionstamp.{same_bytes}
use foundationdb_rs.Election.Types.{
  ParticipantId, Rank, Duration, LeaderElectionError, Observation, Leadership, LocalState,
  PollTransition, PollOutcome,
}
use foundationdb_rs.Election.Step.{DurableState, next_revision, is_owner, is_lease}

-- A leadership names its participant here.
pub data LegacyState : Type 0 where
  unknown : LegacyState
  observation : Observation → LegacyState
  leadership : ParticipantId → Leadership → LegacyState

pub data PendingNextState : Type 0 where
  preserved_observation : Observation → PendingNextState
  new_observation : ParticipantId → Rank → Duration → PendingNextState
  leadership : ParticipantId → Leadership → PendingNextState

abbrev pub Outcome : Type 0
Outcome = Option (Result LeaderElectionError (PollOutcome × PendingNextState))

unfoldable pub into_local_state : PendingNextState → Duration → LegacyState
into_local_state (PendingNextState.preserved_observation o) adopted_at = LegacyState.observation o
into_local_state (PendingNextState.new_observation owner rank lease_duration) adopted_at =
    LegacyState.observation (record {
      owner = owner;
      rank = rank;
      lease_duration = lease_duration;
      first_observed_at = adopted_at;
    })
into_local_state (PendingNextState.leadership participant l) adopted_at =
    LegacyState.leadership participant l

unfoldable pub same_observation : DurableState → Observation → Bool
unfolding same_bytes
same_observation state o =
    is_owner state.owner o.owner
    && (state.revision == o.rank && is_lease state.lease_duration o.lease_duration)

unfoldable pub valid_leadership :
    DurableState → ParticipantId → ParticipantId → Leadership → Duration → Bool
unfolding same_bytes
valid_leadership state participant holder l now =
    same_bytes holder participant
    && ((is_owner state.owner participant
          && (state.revision == l.rank && is_lease state.lease_duration l.lease_duration))
        && ltb (now - l.last_renewed_at) l.lease_duration)

unfoldable pub legacy_leader :
    DurableState → ParticipantId → Duration → Duration → PollTransition → Outcome
unfolding next_revision
legacy_leader state participant lease_duration attempt_started_at transition = some (
    next_revision state >>= λ rank. ok (
      PollOutcome.leader rank transition,
      PendingNextState.leadership participant (record {
        rank = rank;
        lease_duration = lease_duration;
        last_renewed_at = attempt_started_at;
      }),
    ))

abbrev pub pending : DurableState → Option Observation → ParticipantId → Duration → PendingNextState
pending state none owner lease_duration =
    PendingNextState.new_observation owner state.revision lease_duration
pending state (some o) owner lease_duration =
    if same_observation state o
    then PendingNextState.preserved_observation o
    else PendingNextState.new_observation owner state.revision lease_duration

-- `follower_result`, on the owner and the lease of the state
unfoldable pub legacy_follower :
    DurableState → Option ParticipantId → Option Duration → Option Observation → Outcome
unfolding same_observation
legacy_follower state none lease_duration previous = none
legacy_follower state (some owner) none previous = none
legacy_follower state (some owner) (some lease_duration) previous = some (
    ok (
      PollOutcome.follower owner state.revision lease_duration,
      pending state previous owner lease_duration,
    ))

-- The match of `step`, where the state has an owner
unfoldable pub legacy_owned :
    DurableState → Duration → ParticipantId → LegacyState → Duration → Outcome
unfolding valid_leadership legacy_leader legacy_follower same_observation
legacy_owned state lease_duration participant (LegacyState.leadership holder l) now =
    if valid_leadership state participant holder l now
    then legacy_leader state participant lease_duration now PollTransition.renewed
    else legacy_follower state state.owner state.lease_duration none
legacy_owned state lease_duration participant (LegacyState.observation o) now =
    if same_observation state o && leb o.lease_duration (now - o.first_observed_at)
    then legacy_leader state participant lease_duration now (
        if same_bytes o.owner participant
        then PollTransition.reacquired
        else PollTransition.took_over)
    else legacy_follower state state.owner state.lease_duration (some o)
legacy_owned state lease_duration participant LegacyState.unknown now =
    legacy_follower state state.owner state.lease_duration none

abbrev pub settled :
    Duration → Outcome → Option (Result LeaderElectionError (PollOutcome × LegacyState))
settled adopted_at none = none
settled adopted_at (some r) =
    some (r >>= λ (outcome, next). ok (outcome, into_local_state next adopted_at))

-- `legacy::step`: without an owner no leadership is valid, and the state is acquired.
unfoldable pub legacy_step :
    DurableState
    → Duration
    → ParticipantId
    → LegacyState
    → Duration
    → Duration
    → Option (Result LeaderElectionError (PollOutcome × LegacyState))
unfolding legacy_owned legacy_leader into_local_state
legacy_step state lease_duration participant local attempt_started_at adopted_at =
    settled adopted_at (elim state.owner [
      | none ↦
          legacy_leader state participant lease_duration attempt_started_at PollTransition.acquired
      | some owner ↦ legacy_owned state lease_duration participant local attempt_started_at
    ])

-- `to_new`
unfoldable pub to_new : LegacyState → ParticipantId → LocalState
unfolding same_bytes
to_new LegacyState.unknown participant = LocalState.unknown
to_new (LegacyState.observation o) participant = LocalState.observation o
to_new (LegacyState.leadership holder l) participant =
    if same_bytes holder participant then LocalState.leadership l else LocalState.unknown
