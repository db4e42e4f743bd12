-- ===== src/Election/Permission.antt =====
-- What permits a poll to take the leadership, and what a poll writes.
use foundationdb_rs.Prelude.{
  ℕ, ◌+◌, ◌^◌, ◌≤◌, ◌<◌, ◌≡◌, ◌↔◌, ◌⊎◌, refl, ap, sym, ◌∙◌, true, Option, none, some, ◌==◌, ==_self,
  ◌&&◌, leb, ltb, leb→le, le→leb, ltb→lt, lt→ltb, if◌then◌else◌, Bool-cases, Option-cases, inl, inr,
  ok, err, arith,
}
use foundationdb_rs.Tuple.Versionstamp.{same_bytes, same_bytes_self}
use foundationdb_rs.Election.Types.{
  ParticipantId, Rank, Duration, revision_exhausted, PollInput, ObservationTimer, NextState,
  PollTransition, PollOutcome,
}
use foundationdb_rs.Election.Step.{
  DurableState, Decision, next_revision, is_owner, is_lease, same_record, decide_owned, decide,
  leader_result, follower_result, follow_decision, step,
}
use foundationdb_rs.Election.Durable.RoundTrip.{IsParticipant, IsLease, AreFields, IsDurable}
use foundationdb_rs.Election.Legacy.Agrees.{same_parts}

-- The state is that owner's record.
abbrev pub IsRecord : DurableState → ParticipantId → Rank → Duration → Type 0
IsRecord s owner rank lease_duration =
    (s.owner ≡ some owner) × (s.revision ≡ rank) × (s.lease_duration ≡ some lease_duration)

-- Nobody leads, or the input is the participant's own running lease, or it is the exact record of the
-- owner, observed for its whole lease.
pub data Permits (s : DurableState) (participant : ParticipantId) : PollInput → Type 0 where
  released : {i : PollInput} → s.owner ≡ none → Permits s participant i
  renewal :
      {rank : Rank} {lease elapsed : Duration}
      → IsRecord s participant rank lease
      → elapsed < lease
      → Permits s participant (PollInput.leadership rank lease elapsed)
  expiry :
      {owner : ParticipantId} {rank : Rank} {lease elapsed : Duration}
      → IsRecord s owner rank lease
      → lease ≤ elapsed
      → Permits s participant (PollInput.observation owner rank lease elapsed)

pub same_record_iff :
    (s : DurableState) (w : ParticipantId) (r l : ℕ)
    → (same_record s w r l ≡ true) ↔ IsRecord s w r l
unfolding same_record
same_record_iff s w r l = (parts s.owner s.lease_duration, whole)
  where
    parts :
        (o : Option ParticipantId) (d : Option Duration)
        → (is_owner o w && (s.revision == r && is_lease d l)) ≡ true
        → (o ≡ some w) × (s.revision ≡ r) × (d ≡ some l)
    parts none d h = cc
    parts (some o) none h = elim (Bool-cases (same_bytes o w)) [
      | inl same ↦ elim (Bool-cases (s.revision == r)) [
        | inl rank ↦ (let no = rw (same, rank) at h in cc)
        | inr rank ↦ (let no = rw (same, rank) at h in cc)
      ]
      | inr other ↦ (let no = rw other at h in cc)
    ]
    parts (some o) (some d) h =
        let (owners, ranks, leases) = same_parts o w s.revision r d l h in
        (ap some owners, ranks, ap some leases)

    whole : IsRecord s w r l → same_record s w r l ≡ true
    whole (owners, ranks, leases) =
        rw (owners, ranks, leases) (rw (same_bytes_self w, ==_self r, ==_self l))

-- Decided as by the match where the state has an owner.
decide-owned :
    (s : DurableState) (p : ParticipantId) (i : PollInput) (o : ParticipantId)
    → s.owner ≡ some o
    → decide s p i ≡ decide_owned s p i
unfolding decide
decide-owned s p i o h = rw h

-- A poll takes the leadership exactly where it is permitted to.
pub decide_iff :
    (s : DurableState) (participant : ParticipantId) (input : PollInput)
    → ((how : PollTransition) × (decide s participant input ≡ Decision.leader how))
      ↔ Permits s participant input
unfolding decide decide_owned
decide_iff s p i = (permitted i, leading)
  where
    owned_permitted :
        (i : PollInput) (how : PollTransition)
        → decide_owned s p i ≡ Decision.leader how
        → Permits s p i
    owned_permitted PollInput.unknown how h = cc
    owned_permitted (PollInput.leadership r l e) how h = elim (Bool-cases (same_record s p r l)) [
      | inl same ↦ elim (Bool-cases (ltb e l)) [
        | inl running ↦ Permits.renewal ((same_record_iff s p r l).0 same) (ltb→lt e l running)
        | inr expired ↦ (let no = rw (same, expired) at h in cc)
      ]
      | inr other ↦ (let no = rw other at h in cc)
    ]
    owned_permitted (PollInput.observation w r l e) how h =
        elim (Bool-cases (same_record s w r l)) [
          | inl same ↦ elim (Bool-cases (leb l e)) [
            | inl passed ↦ Permits.expiry ((same_record_iff s w r l).0 same) (leb→le l e passed)
            | inr waiting ↦ (let no = rw (same, waiting) at h in cc)
          ]
          | inr other ↦ (let no = rw other at h in cc)
        ]

    permitted :
        (i : PollInput)
        → ((how : PollTransition) × (decide s p i ≡ Decision.leader how))
        → Permits s p i
    permitted i (how, h) = elim (Option-cases s.owner) [
      | inl nobody ↦ Permits.released nobody
      | inr (o, owned) ↦ owned_permitted i how (sym (decide-owned s p i o owned) ∙ h)
    ]

    leading :
        {i : PollInput}
        → Permits s p i
        → (how : PollTransition) × (decide s p i ≡ Decision.leader how)
    leading (Permits.released nobody) = (PollTransition.acquired, rw nobody)
    leading (Permits.renewal {rank} {lease} {elapsed} same running) = (
      PollTransition.renewed,
      decide-owned s p (PollInput.leadership rank lease elapsed) p same.0
          ∙ rw ((same_record_iff s p rank lease).1 same, lt→ltb elapsed lease running),
    )
    leading (Permits.expiry {owner} {rank} {lease} {elapsed} same passed) = (
      (if same_bytes owner p then PollTransition.reacquired else PollTransition.took_over),
      decide-owned s p (PollInput.observation owner rank lease elapsed) owner same.0
          ∙ rw ((same_record_iff s owner rank lease).1 same, le→leb lease elapsed passed),
    )

-- A durable state with a participant's record of the next revision.
abbrev pub next_record : DurableState → ParticipantId → Duration → DurableState
next_record s participant lease_duration = record {
  revision = s.revision + 1;
  owner = some participant;
  lease_duration = some lease_duration;
}

Decision-cases :
    (d : Decision)
    → ((how : PollTransition) × (d ≡ Decision.leader how))
      ⊎ ((timer : ObservationTimer) × (d ≡ Decision.follow timer))
Decision-cases (Decision.leader how) = inl (how, refl)
Decision-cases (Decision.follow timer) = inr (timer, refl)

owned_lease :
    (r : ℕ) (o : Option ParticipantId) (d : Option Duration) (w : ParticipantId)
    → AreFields r o d
    → o ≡ some w
    → (l : Duration) × (d ≡ some l)
owned_lease r none d w h e = cc
owned_lease r (some o) none w h e = absurd h
owned_lease r (some o) (some l) w h e = (l, refl)

-- A poll of a valid participant and lease at a state that the protocol can write ends in one of three
-- ways: it is permitted and writes the participant's record with the next revision, which is again a
-- state of the protocol and the rank of its outcome; it is permitted and the revisions are exhausted;
-- or it is not permitted, writes nothing, and reports the exact record of the owner.
pub step-cases :
    (s : DurableState) (participant : ParticipantId) (lease_duration : Duration) (input : PollInput)
    → IsDurable s
    → IsParticipant participant
    → IsLease lease_duration
    → (Permits s participant input
        × IsDurable (next_record s participant lease_duration)
        × ((how : PollTransition) × (step s participant lease_duration input
              ≡ ok (
                record {
                  outcome = PollOutcome.leader (s.revision + 1) how;
                  next = NextState.leadership (s.revision + 1) lease_duration;
                },
                some (next_record s participant lease_duration),
              ))))
      ⊎ ((Permits s participant input
            × (s.revision + 1 ≡ 2 ^ 64)
            × (step s participant lease_duration input ≡ err revision_exhausted))
          ⊎ ((Permits s participant input → ⊥)
              × ((owner : ParticipantId) × (lease : Duration) × (timer : ObservationTimer)
                  × IsRecord s owner s.revision lease
                  × (step s participant lease_duration input
                      ≡ ok (
                        record {
                          outcome = PollOutcome.follower owner s.revision lease;
                          next = NextState.observation owner s.revision lease timer;
                        },
                        none,
                      )))))
unfolding step follow_decision leader_result next_revision follower_result
step-cases s p l i h hp hl = elim (Decision-cases (decide s p i)) [
  | inl (how, leads_now) ↦
      let permitted = (decide_iff s p i).0 (how, leads_now) in
      elim (Bool-cases (ltb (s.revision + 1) (2 ^ 64))) [
        | inl fits ↦ inl (
          permitted,
          (ltb→lt (s.revision + 1) (2 ^ 64) fits, hp, (omega arith, hl)),
          (how, rw (leads_now, fits)),
        )
        | inr full ↦ let below = h.0 in inr (inl (permitted, ground arith, rw (leads_now, full)))
      ]
  | inr (timer, follows) ↦
      let refused : Permits s p i → ⊥ =
        λ permitted. (let (how, leads_now) = (decide_iff s p i).1 permitted in cc) in
      elim (Option-cases s.owner) [
        | inl nobody ↦ absurd (refused (Permits.released nobody))
        | inr (o, owned) ↦
            let (d, leased) = owned_lease s.revision s.owner s.lease_duration o h.2 owned in
            inr (inr (refused, (o, d, timer, (owned, refl, leased), rw (follows, owned, leased))))
      ]
]
