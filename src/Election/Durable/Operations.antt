-- ===== src/Election/Durable/Operations.antt =====
-- What the operations of the election do to the durable state in a transaction.
use foundationdb_rs.Prelude.{
  ℕ, ◌+◌, ◌^◌, ◌<◌, ◌≡◌, ◌⊎◌, refl, none, some, List, ok, inl, inr, Bool-cases, arith,
}
use foundationdb_rs.Store.{Store}
use foundationdb_rs.Tuple.Bytes.{Memchr}
use foundationdb_rs.Tuple.Subspace.{Subspace}
use foundationdb_rs.Election.Types.{
  ParticipantId, Rank, Duration, PollInput, PollResult, PollOutcome, NextState, ResignOutcome,
  outcome_rank,
}
use foundationdb_rs.Election.Step.{DurableState, same_record, resign_step}
use foundationdb_rs.Election.Permission.{
  IsRecord, Permits, next_record, step-cases, same_record_iff,
}
use foundationdb_rs.Election.Durable.{state_key, read_state, write_next, poll, state, resign}
use foundationdb_rs.Election.Durable.RoundTrip.{
  IsParticipant, IsLease, AreFields, IsDurable, write_state-read_state,
}

module _ (m : Memchr) (db : Store) where
  -- In a transaction that reads a state the protocol can write, a poll of a valid participant that is
  -- permitted to lead, with a revision left, succeeds with the next revision as its rank, and a
  -- reading of the state in the same transaction shows the participant with that rank and its lease.
  pub poll-state :
      (txn : db.Txn) (s : Subspace) (lease_duration : Duration) (participant : ParticipantId)
      (input : PollInput) (key : List ℕ) (current : DurableState)
      → state_key m s ≡ ok key
      → read_state m db txn key ≡ ok current
      → IsDurable current
      → IsParticipant participant
      → IsLease lease_duration
      → Permits current participant input
      → current.revision + 1 < 2 ^ 64
      → (result : PollResult) × (txn' : db.Txn) × (poll m db txn s lease_duration participant input
          ≡ ok (result, txn'))
        × (outcome_rank result.outcome ≡ current.revision + 1)
        × (state m db txn' s
            ≡ ok (record {
              owner = some participant;
              rank = current.revision + 1;
              lease_duration = some lease_duration;
            }))
  unfolding poll state write_next outcome_rank
  poll-state txn s l p i key current keyed reads h hp hl permitted left =
      elim (step-cases current p l i h hp hl) [
        | inl (_, valid, (how, leads)) ↦
            let (txn', written, back) =
              write_state-read_state m db txn key (next_record current p l) valid in
            (
              record {
                outcome = PollOutcome.leader (current.revision + 1) how;
                next = NextState.leadership (current.revision + 1) l;
              },
              txn',
              rw (keyed, reads, leads, written),
              refl,
              rw (keyed, back),
            )
        | inr (inl (_, full, failed)) ↦ absurd (omega arith)
        | inr (inr (refused, rest)) ↦ absurd (refused permitted)
      ]

  -- A resignation with the exact record of the owner leaves the revision and the lease and no owner.
  resign_exact :
      (txn : db.Txn) (s : Subspace) (participant : ParticipantId) (rank : Rank)
      (lease_duration : Duration) (key : List ℕ) (current : DurableState)
      → state_key m s ≡ ok key
      → read_state m db txn key ≡ ok current
      → IsDurable current
      → IsRecord current participant rank lease_duration
      → (txn' : db.Txn) × (resign m db txn s participant rank lease_duration
          ≡ ok (ResignOutcome.resigned, txn'))
        × (state m db txn' s
            ≡ ok (record { owner = none; rank = rank; lease_duration = some lease_duration }))
  unfolding resign state resign_step write_next
  resign_exact txn s p r l key current keyed reads h same =
      let (owners, ranks, leases) = same in
      let fields : AreFields current.revision (some p) (some l) = rw (owners, leases) at h.2 in
      let released : DurableState = record current { owner = none } in
      let (txn', written, back) =
        write_state-read_state m db txn key released (h.0, tt, rw leases fields) in
      (
        txn',
        rw (keyed, reads, (same_record_iff current p r l).1 same, written),
        rw (keyed, back) (rw (ranks, leases)),
      )

  -- In a transaction that reads a state the protocol can write, a resignation with the exact record of
  -- the owner leaves the rank, the lease and no owner; any other resignation is rejected and leaves
  -- the transaction as it was.
  pub resign-state :
      (txn : db.Txn) (s : Subspace) (participant : ParticipantId) (rank : Rank)
      (lease_duration : Duration) (key : List ℕ) (current : DurableState)
      → state_key m s ≡ ok key
      → read_state m db txn key ≡ ok current
      → IsDurable current
      → (IsRecord current participant rank lease_duration
          × (txn' : db.Txn) × (resign m db txn s participant rank lease_duration
              ≡ ok (ResignOutcome.resigned, txn'))
          × (state m db txn' s
              ≡ ok (record { owner = none; rank = rank; lease_duration = some lease_duration })))
        ⊎ ((IsRecord current participant rank lease_duration → ⊥)
            × (resign m db txn s participant rank lease_duration
                ≡ ok (ResignOutcome.rejected, txn)))
  unfolding resign resign_step write_next
  resign-state txn s p r l key current keyed reads h =
      elim (Bool-cases (same_record current p r l)) [
        | inl same ↦
            let exact = (same_record_iff current p r l).0 same in
            let (txn', resigns, shown) = resign_exact txn s p r l key current keyed reads h exact in
            inl (exact, txn', resigns, shown)
        | inr other ↦ inr (
          λ exact. (let same = (same_record_iff current p r l).1 exact in cc),
          rw (keyed, reads, other),
        )
      ]
