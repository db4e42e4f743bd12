-- ===== src/Election/Step.antt =====
-- foundationdb/src/recipes/leader_election/algorithm.rs: the decision of a poll and its result, a
-- function of the durable state and the caller's input.
use foundationdb_rs.Prelude.{
  ℕ, ◌+◌, ◌^◌, Bool, false, Option, none, some, ◌==◌, ◌&&◌, ltb, leb, if◌then◌else◌, Result, ok,
  err, ◌>>=◌,
}
use foundationdb_rs.Tuple.Versionstamp.{same_bytes}
use foundationdb_rs.Election.Types.{
  ParticipantId, Rank, Duration, StateError, follower_of_released, follower_without_lease,
  LeaderElectionError, invalid_state, revision_exhausted, PollInput, ObservationTimer, NextState,
  PollTransition, PollOutcome, PollResult, ResignOutcome,
}

pub record DurableState : Type 0 where
  pub revision : ℕ
  pub owner : Option ParticipantId
  pub lease_duration : Option Duration

-- `DurableState::default`
abbrev pub default_state : DurableState
default_state = record { revision = 0; owner = none; lease_duration = none }

-- `next_revision`: `checked_add` of a `u64`
unfoldable pub next_revision : DurableState → Result LeaderElectionError ℕ
next_revision state =
    if ltb (state.revision + 1) (2 ^ 64) then ok (state.revision + 1) else err revision_exhausted

pub data Decision : Type 0 where
  leader : PollTransition → Decision
  follow : ObservationTimer → Decision

-- `state.owner.as_ref() == Some(owner)`
abbrev pub is_owner : Option ParticipantId → ParticipantId → Bool
is_owner none owner = false
is_owner (some o) owner = same_bytes o owner

-- `state.lease_duration == Some(lease_duration)`
abbrev pub is_lease : Option Duration → Duration → Bool
is_lease none lease_duration = false
is_lease (some l) lease_duration = l == lease_duration

unfoldable pub same_record : DurableState → ParticipantId → Rank → Duration → Bool
unfolding same_bytes
same_record state owner rank lease_duration =
    is_owner state.owner owner
    && (state.revision == rank && is_lease state.lease_duration lease_duration)

-- `decide`, where the state has an owner
unfoldable pub decide_owned : DurableState → ParticipantId → PollInput → Decision
unfolding same_record
decide_owned state participant (PollInput.leadership rank lease_duration elapsed) =
    if same_record state participant rank lease_duration && ltb elapsed lease_duration
    then Decision.leader PollTransition.renewed
    else Decision.follow ObservationTimer.reset
decide_owned state participant (PollInput.observation owner rank lease_duration elapsed) =
    if same_record state owner rank lease_duration
    then (if leb lease_duration elapsed
        then Decision.leader (
            if same_bytes owner participant
            then PollTransition.reacquired
            else PollTransition.took_over)
        else Decision.follow ObservationTimer.preserve)
    else Decision.follow ObservationTimer.reset
decide_owned state participant PollInput.unknown = Decision.follow ObservationTimer.reset

unfoldable pub decide : DurableState → ParticipantId → PollInput → Decision
unfolding decide_owned
decide state participant input = elim state.owner [
  | none ↦ Decision.leader PollTransition.acquired
  | some owner ↦ decide_owned state participant input
]

unfoldable pub leader_result :
    DurableState
    → ParticipantId
    → Duration
    → PollTransition
    → Result LeaderElectionError (PollResult × DurableState)
unfolding next_revision
leader_result state participant lease_duration transition = do
  revision ← next_revision state
  ok (
    record {
      outcome = PollOutcome.leader revision transition;
      next = NextState.leadership revision lease_duration;
    },
    record { revision = revision; owner = some participant; lease_duration = some lease_duration },
  )

-- `ok_or_else`
abbrev pub ok_or {ℓ} : {A : Type ℓ} → Option A → StateError → Result LeaderElectionError A
ok_or none e = err (invalid_state e)
ok_or (some a) e = ok a

unfoldable pub follower_result :
    DurableState → ObservationTimer → Result LeaderElectionError PollResult
follower_result state timer = do
  owner ← ok_or state.owner follower_of_released
  lease_duration ← ok_or state.lease_duration follower_without_lease
  ok (record {
    outcome = PollOutcome.follower owner state.revision lease_duration;
    next = NextState.observation owner state.revision lease_duration timer;
  })

-- The match of `step` on the decision
unfoldable pub follow_decision :
    DurableState
    → ParticipantId
    → Duration
    → Decision
    → Result LeaderElectionError (PollResult × Option DurableState)
unfolding leader_result follower_result
follow_decision state participant lease_duration (Decision.leader transition) = do
  (result, next_state) ← leader_result state participant lease_duration transition
  ok (result, some next_state)
follow_decision state participant lease_duration (Decision.follow timer) = do
  result ← follower_result state timer
  ok (result, none)

unfoldable pub step :
    DurableState
    → ParticipantId
    → Duration
    → PollInput
    → Result LeaderElectionError (PollResult × Option DurableState)
unfolding decide follow_decision
step state participant lease_duration input =
    follow_decision state participant lease_duration (decide state participant input)

-- The decision of `resign`, and the state that it writes.
unfoldable pub resign_step :
    DurableState → ParticipantId → Rank → Duration → ResignOutcome × Option DurableState
unfolding same_record
resign_step state participant rank lease_duration =
    if same_record state participant rank lease_duration
    then (ResignOutcome.resigned, some (record state { owner = none }))
    else (ResignOutcome.rejected, none)
