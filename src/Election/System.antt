-- ===== src/Election/System.antt =====
-- Participants that poll one election: foundationdb/src/recipes/leader_election as a whole, with
-- transactions that commit one after the other, as FoundationDB's serializable transactions do, and
-- callers that follow the rules of mod.rs. Their clocks differ, but run at one rate: `now` is the time.
pub mod Safety
use foundationdb_rs.Prelude.{ℕ, ◌+◌, ◌≡◌, Option, none, some, List, if◌then◌else◌, ok}
use foundationdb_rs.Tuple.Versionstamp.{same_bytes}
use foundationdb_rs.Election.Types.{
  ParticipantId, Rank, Duration, LocalState, Leadership, NextState, PollResult, ResignOutcome,
  input, adopt,
}
use foundationdb_rs.Election.Durable.RoundTrip.{IsParticipant, IsLease}
use foundationdb_rs.Election.Step.{DurableState, default_state, step, resign_step}

-- Where a caller is in `Database::run`: it has read the clock and polls until a transaction commits,
-- or the poll has committed and waits to be adopted.
pub data Phase : Type 0 where
  idle : Phase
  started : Duration → Phase
  committed : Duration → NextState → Phase

pub record System : Type 0 where
  pub now : Duration
  pub durable : DurableState
  pub local : ParticipantId → LocalState
  pub phase : ParticipantId → Phase

abbrev pub update {ℓ} : {A : Type ℓ} → (ParticipantId → A) → ParticipantId → A → ParticipantId → A
update f p a q = if same_bytes q p then a else f q

-- The writes of a committed transaction
abbrev pub written_or : Option DurableState → DurableState → DurableState
written_or none s = s
written_or (some s') s = s'

abbrev pub initial : System
initial = record {
  now = 0;
  durable = default_state;
  local = λ p. LocalState.unknown;
  phase = λ p. Phase.idle;
}

-- A participant uses one handle, and so one lease duration; `ParticipantId::new` has accepted who
-- polls, and `LeaderElection::new` the lease.
pub data Step (lease : ParticipantId → Duration) : System → System → Type 0 where
  tick : (s : System) (d : ℕ) → Step lease s (record s { now = s.now + d })
  start :
      (s : System) (p : ParticipantId)
      → s.phase p ≡ Phase.idle
      → Step lease s (record s { phase = update s.phase p (Phase.started s.now) })
  commit :
      (s : System) (p : ParticipantId) (at : Duration) (result : PollResult)
      (written : Option DurableState)
      → IsParticipant p
      → IsLease (lease p)
      → s.phase p ≡ Phase.started at
      → step s.durable p (lease p) (input (s.local p) at) ≡ ok (result, written)
      → Step lease s (record s {
        durable = written_or written s.durable;
        phase = update s.phase p (Phase.committed at result.next);
      })
  adopted :
      (s : System) (p : ParticipantId) (at : Duration) (next : NextState)
      → s.phase p ≡ Phase.committed at next
      → Step lease s (record s {
        local = update s.local p (adopt (s.local p) at s.now next);
        phase = update s.phase p Phase.idle;
      })
  -- The run fails, or it has committed and the caller does not learn it.
  abandon :
      (s : System) (p : ParticipantId)
      → Step lease s (record s { phase = update s.phase p Phase.idle })
  -- The process restarts.
  restart :
      (s : System) (p : ParticipantId)
      → Step lease s (record s {
        local = update s.local p LocalState.unknown;
        phase = update s.phase p Phase.idle;
      })
  -- A leader that does not poll gives up its local state and resigns.
  give_up :
      (s : System) (p : ParticipantId) (l : Leadership) (outcome : ResignOutcome)
      (written : Option DurableState)
      → s.phase p ≡ Phase.idle
      → s.local p ≡ LocalState.leadership l
      → resign_step s.durable p l.rank l.lease_duration ≡ (outcome, written)
      → Step lease s (record s {
        durable = written_or written s.durable;
        local = update s.local p LocalState.unknown;
      })

pub data Reach (lease : ParticipantId → Duration) : System → Type 0 where
  begin : Reach lease initial
  next : {s t : System} → Reach lease s → Step lease s t → Reach lease t

-- What a participant may act on as leader until its lease is over: what it holds, and what it is
-- about to adopt.
pub data Claims (s : System) (p : ParticipantId) : Rank → Duration → Duration → Type 0 where
  held :
      {l : Leadership}
      → s.local p ≡ LocalState.leadership l
      → Claims s p l.rank l.lease_duration l.last_renewed_at
  staged :
      {rank : Rank} {lease at : Duration}
      → s.phase p ≡ Phase.committed at (NextState.leadership rank lease)
      → Claims s p rank lease at
