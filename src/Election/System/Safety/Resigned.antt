-- ===== src/Election/System/Safety/Resigned.antt =====
-- A resignation keeps the system safe.
use foundationdb_rs.Prelude.{ℕ, ◌≡◌, inl, inr, Option, none, some, Bool-cases}
use foundationdb_rs.Tuple.Versionstamp.{same_bytes_self}
use foundationdb_rs.Election.Types.{ParticipantId, Duration, LocalState, Leadership, ResignOutcome}
use foundationdb_rs.Election.Step.{DurableState, same_record, resign_step}
use foundationdb_rs.Election.Durable.RoundTrip.{AreFields}
use foundationdb_rs.Election.Permission.{IsRecord, same_record_iff}
use foundationdb_rs.Election.System.{Phase, System, update, written_or, Claims}
use foundationdb_rs.Election.System.Safety.{IsSafe, update-cases}
use foundationdb_rs.Election.System.Safety.Quiet.{forget-IsSafe}

module _ (lease : ParticipantId → Duration) (s : System) (safe : IsSafe lease s) where
  resigned-IsSafe :
      (p : ParticipantId) (l : Leadership)
      → s.phase p ≡ Phase.idle
      → IsRecord s.durable p l.rank l.lease_duration
      → IsSafe lease (record s {
        durable = record s.durable { owner = none };
        local = update s.local p LocalState.unknown;
      })
  resigned-IsSafe p l rests same =
      let (owners, ranks, leases) = same in
      let fields : AreFields s.durable.revision (some p) (some l.lease_duration) =
        rw (owners, leases) at (safe.durable).2 in
      record {
        durable = ((safe.durable).0, tt, rw leases fields);
        owner_lease = λ o h. cc;
        claims = λ q r d a c.
            (let old = forgotten q r d a c in
              let (anchored, leased, revisions, owned) = safe.claims q r d a old in
              (
                anchored,
                leased,
                revisions,
                elim owned [
                  | inl own ↦ (let it : q ≡ p = cc in absurd (no_claim q r d a it c))
                  | inr over ↦ inr over
                ],
              ));
        observed = λ q ob h. elim (update-cases s.local p q LocalState.unknown _ h) [
          | inl (it, new) ↦ cc
          | inr before ↦
              let (revisions, anchors) = safe.observed q ob before in
              (revisions, λ r d a c below. anchors r d a (forgotten ob.owner r d a c) below)
        ];
        started = safe.started;
        staged = safe.staged;
      }
    where
      forgotten :
          (q : ParticipantId) (r d a : ℕ)
          → Claims
              (record s {
                durable = record s.durable { owner = none };
                local = update s.local p LocalState.unknown;
              })
              q
              r
              d
              a
          → Claims s q r d a
      forgotten q r d a c = elim c [
        | Claims.held h ↦ elim (update-cases s.local p q LocalState.unknown _ h) [
          | inl (it, new) ↦ cc
          | inr before ↦ Claims.held before
        ]
        | Claims.staged h ↦ Claims.staged h
      ]

      no_claim :
          (q : ParticipantId) (r d a : ℕ)
          → q ≡ p
          → Claims
              (record s {
                durable = record s.durable { owner = none };
                local = update s.local p LocalState.unknown;
              })
              q
              r
              d
              a
          → ⊥
      no_claim q r d a it c = elim c [
        | Claims.held h ↦ (let gone = rw (it, same_bytes_self p) at h in cc)
        | Claims.staged h ↦ (let resting = rw it at h in cc)
      ]

  pub resign-IsSafe :
      (p : ParticipantId) (l : Leadership) (outcome : ResignOutcome) (written : Option DurableState)
      → s.phase p ≡ Phase.idle
      → resign_step s.durable p l.rank l.lease_duration ≡ (outcome, written)
      → IsSafe lease (record s {
        durable = written_or written s.durable;
        local = update s.local p LocalState.unknown;
      })
  unfolding resign_step
  resign-IsSafe p l outcome written rests done =
      elim (Bool-cases (same_record s.durable p l.rank l.lease_duration)) [
        | inl same ↦
            let found = rw same at done in
            let writes : written ≡ some (record s.durable { owner = none }) = cc in
            rw writes (
              resigned-IsSafe p l rests
                ((same_record_iff s.durable p l.rank l.lease_duration).0 same))
        | inr other ↦
            let found = rw other at done in
            let writes : written ≡ none = cc in rw writes (forget-IsSafe lease s safe p)
      ]
