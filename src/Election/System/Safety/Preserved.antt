-- ===== src/Election/System/Safety/Preserved.antt =====
-- A poll that commits keeps the system safe.
use foundationdb_rs.Prelude.{
  ℕ, ◌+◌, ◌≤◌, ◌≡◌, ◌⊎◌, inl, inr, refl, ap, sym, Option, none, some, ok, arith,
}
use foundationdb_rs.Election.Types.{
  ParticipantId, Duration, LocalState, NextState, ObservationTimer, PollResult, input,
}
use foundationdb_rs.Election.Step.{DurableState, step}
use foundationdb_rs.Election.Durable.RoundTrip.{IsParticipant, IsLease, IsDurable}
use foundationdb_rs.Election.Permission.{Permits, next_record, step-cases}
use foundationdb_rs.Election.System.{Phase, System, update, written_or, Claims}
use foundationdb_rs.Election.System.Safety.{IsSafe, update-cases, weaken, older-Claims}

module _ (lease : ParticipantId → Duration) (s : System) (safe : IsSafe lease s) where
  -- Where a poll may take the leadership, the claims of the others are over.
  others_over :
      (p q : ParticipantId) (at r l a : ℕ) (loc : LocalState)
      → s.local p ≡ loc
      → Permits s.durable p (input loc at)
      → at ≤ s.now
      → s.durable.owner ≡ some q
      → Claims s q r l a
      → (q ≡ p) ⊎ (a + l ≤ s.now)
  unfolding input
  others_over p q at r l a LocalState.unknown e (Permits.released nobody) began own c = cc
  others_over p q at r l a (LocalState.leadership d) e (Permits.released nobody) began own c = cc
  others_over p q at r l a (LocalState.observation ob) e (Permits.released nobody) began own c = cc
  others_over p q at r l a (LocalState.leadership d) e (Permits.renewal same running) began own c =
      inl (let owners = same.0 in cc)
  others_over p q at r l a (LocalState.observation ob) e (Permits.expiry same passed) began own c =
      let (owners, ranks, leases) = same in
      let it : q ≡ ob.owner = cc in
      let (anchored, leased, revisions, _) = safe.claims q r l a c in
      let (_, anchors) = safe.observed p ob e in
      let earlier : a ≤ ob.first_observed_at = anchors r l a (rw it at c) (omega arith) in
      let durable_lease = safe.owner_lease q own in
      let waited : lease q ≡ ob.lease_duration = cc in inr (omega arith)

  -- The claims after a leader's commit: its own new one, and those before.
  leader-Claims :
      (p q : ParticipantId) (at rank l r d a : ℕ)
      → Claims
          (record s {
            durable = next_record s.durable p l;
            phase = update s.phase p (Phase.committed at (NextState.leadership rank l));
          })
          q
          r
          d
          a
      → ((q ≡ p) × (at ≡ a) × (rank ≡ r) × (l ≡ d)) ⊎ Claims s q r d a
  leader-Claims p q at rank l r d a c = elim c [
    | Claims.held h ↦ inr (Claims.held h)
    | Claims.staged h ↦
        elim (update-cases s.phase p q (Phase.committed at (NextState.leadership rank l)) _ h) [
          | inl (same, new) ↦ inl (same, cc, cc, cc)
          | inr before ↦ inr (Claims.staged before)
        ]
  ]

  leader-IsSafe :
      (p : ParticipantId) (at : Duration)
      → s.phase p ≡ Phase.started at
      → Permits s.durable p (input (s.local p) at)
      → IsDurable (next_record s.durable p (lease p))
      → IsSafe lease (record s {
        durable = next_record s.durable p (lease p);
        phase =
            update s.phase p
              (Phase.committed at (NextState.leadership (s.durable.revision + 1) (lease p)));
      })
  leader-IsSafe p at began permitted written =
      let rank = s.durable.revision + 1 in
      let ph = Phase.committed at (NextState.leadership rank (lease p)) in
      let earlier = safe.started p at began in
      record {
        durable = written;
        owner_lease = λ o h. (let same : p ≡ o = cc in ap (λ x. some (lease x)) same);
        claims = λ q r l a c. elim (leader-Claims p q at rank (lease p) r l a c) [
          | inl (same, anchor, ranks, leases) ↦
              (omega arith, rw same (sym leases), omega arith, inl (ap some (sym same)))
          | inr old ↦
              let (anchored, leased, ranks, owned) = safe.claims q r l a old in
              (
                anchored,
                leased,
                omega arith,
                elim owned [
                  | inl own ↦
                      elim (others_over p q at r l a (s.local p) refl permitted earlier own old) [
                        | inl same ↦ inl (ap some (sym same))
                        | inr over ↦ inr over
                      ]
                  | inr over ↦ inr over
                ],
              )
        ];
        observed = λ q ob h.
            (let (ranks, anchors) = safe.observed q ob h in
              (
                omega arith,
                λ r l a c below. elim (leader-Claims p ob.owner at rank (lease p) r l a c) [
                  | inl (same, anchor, new, leases) ↦ absurd (omega arith)
                  | inr old ↦ anchors r l a old below
                ],
              ));
        started = λ q since h. elim (update-cases s.phase p q ph _ h) [
          | inl (same, new) ↦ cc
          | inr before ↦ safe.started q since before
        ];
        staged = λ q since o r l timer h. elim (update-cases s.phase p q ph _ h) [
          | inl (same, new) ↦ cc
          | inr before ↦ (let ranks = safe.staged q since o r l timer before in omega arith)
        ];
      }

  follower-IsSafe :
      (p : ParticipantId) (at : Duration) (o : ParticipantId) (d : Duration)
      (timer : ObservationTimer)
      → IsSafe lease (record s {
        phase =
            update s.phase p
              (Phase.committed at (NextState.observation o s.durable.revision d timer));
      })
  follower-IsSafe p at o d timer =
      let ph = Phase.committed at (NextState.observation o s.durable.revision d timer) in
      let t : System = record s { phase = update s.phase p ph } in
      weaken lease s t safe refl (omega arith) (older-Claims s t p ph refl refl (λ since r l h. cc))
        (λ q ob h. inl h)
        (λ q since h. elim (update-cases s.phase p q ph _ h) [
          | inl (same, new) ↦ cc
          | inr before ↦ inl before
        ])
        (λ q since w r l how h. elim (update-cases s.phase p q ph _ h) [
          | inl (same, new) ↦ inr (let ranks : s.durable.revision ≡ r = cc in omega arith)
          | inr before ↦ inl before
        ])

  pub commit-IsSafe :
      (p : ParticipantId) (at : Duration) (result : PollResult) (written : Option DurableState)
      → IsParticipant p
      → IsLease (lease p)
      → s.phase p ≡ Phase.started at
      → step s.durable p (lease p) (input (s.local p) at) ≡ ok (result, written)
      → IsSafe lease (record s {
        durable = written_or written s.durable;
        phase = update s.phase p (Phase.committed at result.next);
      })
  commit-IsSafe p at result written hp hl began done =
      elim (step-cases s.durable p (lease p) (input (s.local p) at) safe.durable hp hl) [
        | inl (permitted, valid, (how, leads)) ↦
            let writes : written ≡ some (next_record s.durable p (lease p)) = cc in
            let next : result.next ≡ NextState.leadership (s.durable.revision + 1) (lease p) = cc in
            rw (writes, next) (leader-IsSafe p at began permitted valid)
        | inr (inl (permitted, full, failed)) ↦ cc
        | inr (inr (refused, (o, d, timer, same, follows))) ↦
            let writes : written ≡ none = cc in
            let next : result.next ≡ NextState.observation o s.durable.revision d timer = cc in
            rw (writes, next) (follower-IsSafe p at o d timer)
      ]
