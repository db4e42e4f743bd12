-- ===== src/Election/Legacy/Agrees.antt =====
-- The clock-free poll and the legacy poll agree.
use foundationdb_rs.Prelude.{
  ℕ, ◌-◌, ◌≡◌, refl, Bool, true, false, Option, none, some, ◌==◌, ==_iff, ==_self, ◌&&◌, leb, ltb,
  Bool-cases, inl, inr, List, Result, ok, ◌>>=◌, Result-cases,
}
use foundationdb_rs.Tuple.Versionstamp.{same_bytes, same_bytes-eq, same_bytes_self}
use foundationdb_rs.Election.Types.{
  ParticipantId, Duration, LeaderElectionError, Observation, LocalState, PollTransition,
  PollOutcome, PollResult, ObservationTimer, input, adopt, keeps,
}
use foundationdb_rs.Election.Step.{
  DurableState, Decision, next_revision, same_record, decide_owned, decide, leader_result,
  follower_result, follow_decision, step,
}
use foundationdb_rs.Election.Durable.RoundTrip.{AreFields, IsDurable}
use foundationdb_rs.Election.Legacy.{
  LegacyState, PendingNextState, into_local_state, same_observation, valid_leadership,
  legacy_leader, legacy_follower, legacy_owned, settled, legacy_step, to_new,
}

-- A local state of the new kind, as the poller's own state of the old kind.
abbrev pub owned_by : ParticipantId → LocalState → LegacyState
owned_by participant LocalState.unknown = LegacyState.unknown
owned_by participant (LocalState.observation o) = LegacyState.observation o
owned_by participant (LocalState.leadership l) = LegacyState.leadership participant l

abbrev Finished : Type 0
Finished = Result LeaderElectionError (PollOutcome × LegacyState)

-- What the caller has after a poll that it adopts.
abbrev adopted :
    ParticipantId → LocalState → Duration → Duration → PollResult × Option DurableState → Finished
adopted participant local attempt_started_at adopted_at (result, written) =
    ok
      (result.outcome, owned_by participant (adopt local attempt_started_at adopted_at result.next))

-- The clock-free poll with its input measured before and its result adopted after.
abbrev pub polled :
    DurableState → Duration → ParticipantId → LocalState → Duration → Duration → Finished
polled state lease_duration participant local attempt_started_at adopted_at =
    step state participant lease_duration (input local attempt_started_at)
    >>= adopted participant local attempt_started_at adopted_at

abbrev as_leader :
    ParticipantId
    → Duration
    → Duration
    → PollTransition
    → ℕ
    → Result LeaderElectionError (PollOutcome × PendingNextState)
as_leader participant lease_duration attempt_started_at how rank = ok (
  PollOutcome.leader rank how,
  PendingNextState.leadership participant (record {
    rank = rank;
    lease_duration = lease_duration;
    last_renewed_at = attempt_started_at;
  }),
)

and-left : (a b : Bool) → (a && b) ≡ true → (a ≡ true) × (b ≡ true)
and-left true b h = (refl, h)
and-left false b h = cc

-- A record that is the same has the same parts.
pub same_parts :
    (a b : List ℕ) (r r' l l' : ℕ)
    → (same_bytes a b && (r == r' && l == l')) ≡ true
    → (a ≡ b) × (r ≡ r') × (l ≡ l')
same_parts a b r r' l l' h =
    let (owners, others) = and-left (same_bytes a b) _ h in
    let (ranks, leases) = and-left (r == r') _ others in
    (same_bytes-eq a b owners, (==_iff r r').0 ranks, (==_iff l l').0 leases)

keeps-same :
    (o : Observation) (w : ParticipantId) (r l : ℕ)
    → (same_bytes w o.owner && (r == o.rank && l == o.lease_duration)) ≡ true
    → keeps o w r l ObservationTimer.preserve ≡ true
keeps-same o w r l h =
    let (owners, ranks, leases) = same_parts w o.owner r o.rank l o.lease_duration h in
    rw (owners, ranks, leases)
      (rw (same_bytes_self o.owner, ==_self o.rank, ==_self o.lease_duration))

module _ (r : ℕ) (lease : Duration) (p : ParticipantId) (t u : Duration) where
  -- A leader result is the same in both, whatever the local state.
  leader_agrees :
      (o : Option ParticipantId) (l : Option Duration) (local : LocalState) (how : PollTransition)
      → let s : DurableState = record { revision = r; owner = o; lease_duration = l } in
        settled u (legacy_leader s p lease t how)
        ≡ some (follow_decision s p lease (Decision.leader how) >>= adopted p local t u)
  unfolding legacy_leader follow_decision leader_result adopt into_local_state
  leader_agrees o l local how =
      elim (Result-cases (next_revision (record { revision = r; owner = o; lease_duration = l }))) [
        | inl (next, fine) ↦ rw fine
        | inr (e, failed) ↦ rw failed
      ]

  agrees_owned :
      (w : ParticipantId) (l : Duration) (local : LegacyState)
      → let s : DurableState = record { revision = r; owner = some w; lease_duration = some l } in
        settled u (legacy_owned s lease p local t) ≡ some (polled s lease p (to_new local p) t u)
  unfolding legacy_owned legacy_follower same_observation valid_leadership same_record step decide
      decide_owned follow_decision follower_result to_new input adopt into_local_state
  agrees_owned w l LegacyState.unknown = refl
  agrees_owned w l (LegacyState.observation o) =
      elim (Bool-cases (same_bytes w o.owner && (r == o.rank && l == o.lease_duration))) [
        | inl same ↦ elim (Bool-cases (leb o.lease_duration (t - o.first_observed_at))) [
          | inl passed ↦
              rw (same, passed) (leader_agrees (some w) (some l) (LocalState.observation o) _)
          | inr waiting ↦ rw (same, waiting, keeps-same o w r l same)
        ]
        | inr other ↦ rw other refl
      ]
  agrees_owned w l (LegacyState.leadership holder d) = elim (Bool-cases (same_bytes holder p)) [
    | inl own ↦ elim (Bool-cases (same_bytes w p && (r == d.rank && l == d.lease_duration))) [
      | inl same ↦ elim (Bool-cases (ltb (t - d.last_renewed_at) d.lease_duration)) [
        | inl valid ↦
            rw (own, same, valid)
              (leader_agrees (some w) (some l) (LocalState.leadership d) PollTransition.renewed)
        | inr expired ↦ rw (own, same, expired)
      ]
      | inr other ↦ rw (own, other)
    ]
    | inr foreign ↦ rw foreign
  ]

-- At every durable state that the protocol can write, and for every local state, a poll of the
-- clock-free protocol that is measured before and adopted after has the outcome and leaves the local
-- state of the legacy poll, which never panics; only a leadership of the legacy poll that another
-- participant holds, which claims nothing, is taken for no state.
pub legacy_step-polled :
    (s : DurableState) (lease_duration : Duration) (participant : ParticipantId)
    (local : LegacyState) (attempt_started_at adopted_at : Duration)
    → IsDurable s
    → legacy_step s lease_duration participant local attempt_started_at adopted_at
      ≡ some (
          polled s lease_duration participant
            (to_new local participant)
            attempt_started_at
            adopted_at)
unfolding legacy_step step decide
legacy_step-polled s lease p local t u h = agrees s.owner s.lease_duration h.2
  where
    agrees :
        (o : Option ParticipantId) (l : Option Duration)
        → AreFields s.revision o l
        → let s' : DurableState = record { revision = s.revision; owner = o; lease_duration = l } in
          legacy_step s' lease p local t u ≡ some (polled s' lease p (to_new local p) t u)
    agrees none l fine =
        leader_agrees s.revision lease p t u none l (to_new local p) PollTransition.acquired
    agrees (some w) none fine = absurd fine
    agrees (some w) (some l) fine = agrees_owned s.revision lease p t u w l local
