-- ===== src/Election/System/Safety.antt =====
-- At most one participant leads: what every step of the system preserves.
pub mod Quiet
pub mod Preserved
pub mod Resigned
pub mod Leader
use foundationdb_rs.Prelude.{
  ℕ, zero, suc, ◌+◌, ◌-◌, ◌^◌, ◌≤◌, ◌<◌, ◌≡◌, ◌⊎◌, inl, inr, refl, ap, sym, ◌∙◌, Bool, true, false,
  Option, none, some, List, Bool-cases, if◌then◌else◌, ok, arith,
}
use foundationdb_rs.Tuple.Versionstamp.{same_bytes, same_bytes-eq, same_bytes_self}
use foundationdb_rs.Election.Types.{
  ParticipantId, Rank, Duration, LocalState, Observation, Leadership, NextState, ObservationTimer,
  PollInput, PollResult, input, adopt, keeps,
}
use foundationdb_rs.Election.Step.{DurableState, default_state, step, resign_step}
use foundationdb_rs.Election.Durable.RoundTrip.{IsParticipant, IsLease, IsDurable}
use foundationdb_rs.Election.Permission.{IsRecord, Permits, next_record, step-cases}
use foundationdb_rs.Election.System.{
  Phase, System, update, written_or, initial, Step, Reach, Claims,
}

-- Every claim is that of the durable owner or over, an owner's record holds its lease, and an
-- observation was made after the claims that the record in it can stand for.
pub record IsSafe (lease : ParticipantId → Duration) (s : System) : Type 0 where
  pub durable : IsDurable s.durable
  pub owner_lease :
      (o : ParticipantId) → s.durable.owner ≡ some o → s.durable.lease_duration ≡ some (lease o)
  pub claims :
      (p : ParticipantId) (r l a : ℕ)
      → Claims s p r l a
      → (a ≤ s.now)
        × (l ≡ lease p)
        × (r ≤ s.durable.revision)
        × ((s.durable.owner ≡ some p) ⊎ (a + l ≤ s.now))
  pub observed :
      (q : ParticipantId) (ob : Observation)
      → s.local q ≡ LocalState.observation ob
      → (ob.rank ≤ s.durable.revision)
        × ((r l a : ℕ) → Claims s ob.owner r l a → r ≤ ob.rank → a ≤ ob.first_observed_at)
  pub started : (q : ParticipantId) (at : Duration) → s.phase q ≡ Phase.started at → at ≤ s.now
  pub staged :
      (q : ParticipantId) (at : Duration) (o : ParticipantId) (r l : ℕ) (timer : ObservationTimer)
      → s.phase q ≡ Phase.committed at (NextState.observation o r l timer)
      → r ≤ s.durable.revision

pub update-cases :
    {A : Type 0} (f : ParticipantId → A) (p q : ParticipantId) (a b : A)
    → update f p a q ≡ b
    → ((q ≡ p) × (a ≡ b)) ⊎ (f q ≡ b)
update-cases f p q a b h = elim (Bool-cases (same_bytes q p)) [
  | inl same ↦ inl (same_bytes-eq q p same, rw same at h)
  | inr other ↦ inr (rw other at h)
]

-- A step that writes nothing, makes no new claim and observes nothing that is not safe.
pub weaken :
    (lease : ParticipantId → Duration) (s t : System)
    → IsSafe lease s
    → t.durable ≡ s.durable
    → s.now ≤ t.now
    → ((p : ParticipantId) (r l a : ℕ) → Claims t p r l a → Claims s p r l a)
    → ((q : ParticipantId) (ob : Observation)
        → t.local q ≡ LocalState.observation ob
        → (s.local q ≡ LocalState.observation ob)
          ⊎ ((ob.rank ≤ s.durable.revision) × (s.now ≤ ob.first_observed_at)))
    → ((q : ParticipantId) (at : Duration)
        → t.phase q ≡ Phase.started at
        → (s.phase q ≡ Phase.started at) ⊎ (at ≤ t.now))
    → ((q : ParticipantId) (at : Duration) (o : ParticipantId) (r l : ℕ) (timer : ObservationTimer)
        → t.phase q ≡ Phase.committed at (NextState.observation o r l timer)
        → (s.phase q ≡ Phase.committed at (NextState.observation o r l timer))
          ⊎ (r ≤ s.durable.revision))
    → IsSafe lease t
weaken lease s t safe same later older seen begun known = record {
  durable = rw same safe.durable;
  owner_lease = λ o h. rw same (safe.owner_lease o (rw same at h));
  claims = λ p r l a c.
      (let (started_at, leases, ranks, owned) = safe.claims p r l a (older p r l a c) in
        rw same (
          omega arith,
          leases,
          ranks,
          elim owned [ inl own ↦ inl own | inr over ↦ inr (omega arith) ],
        ));
  observed = λ q ob h. elim (seen q ob h) [
    | inl before ↦
        let (ranks, anchors) = safe.observed q ob before in
        (rw same ranks, λ r l a c below. anchors r l a (older ob.owner r l a c) below)
    | inr (ranks, fresh) ↦ (
      rw same ranks,
      λ r l a c below.
          (let (started_at, _, _, _) = safe.claims ob.owner r l a (older ob.owner r l a c) in
            omega arith),
    )
  ];
  started = λ q at h. elim (begun q at h) [
    | inl before ↦ omega (arith, safe.started q at before)
    | inr fine ↦ fine
  ];
  staged = λ q at o r l timer h. elim (known q at o r l timer h) [
    | inl before ↦ rw same (safe.staged q at o r l timer before)
    | inr fine ↦ rw same fine
  ];
}

-- Where a phase is left, no claim is new.
pub older-Claims :
    (s t : System) (p : ParticipantId) (ph : Phase)
    → t.local ≡ s.local
    → t.phase ≡ update s.phase p ph
    → ((at r l : ℕ) → ph ≡ Phase.committed at (NextState.leadership r l) → ⊥)
    → (q : ParticipantId) (r l a : ℕ) → Claims t q r l a
    → Claims s q r l a
older-Claims s t p ph locals phases none_new q r l a c = elim c [
  | Claims.held h ↦ Claims.held (rw locals at h)
  | Claims.staged h ↦ elim (update-cases s.phase p q ph _ (rw phases at h)) [
    | inl (same, new) ↦ absurd (none_new _ _ _ new)
    | inr before ↦ Claims.staged before
  ]
]

fresh_observation :
    (o : ParticipantId) (r l u : ℕ) (ob : Observation)
    → LocalState.observation
        (record { owner = o; rank = r; lease_duration = l; first_observed_at = u })
      ≡ LocalState.observation ob
    → (NextState.observation o r l ≡ NextState.observation ob.owner ob.rank ob.lease_duration)
      × (u ≡ ob.first_observed_at)
fresh_observation o r l u ob h =
    let same : ◌≡◌ {A = Observation}
        (record { owner = o; rank = r; lease_duration = l; first_observed_at = u }) ob =
      cc in
    (
      ap (λ (x : Observation). NextState.observation x.owner x.rank x.lease_duration) same,
      ap (λ (x : Observation). x.first_observed_at) same,
    )

-- What is observed after a poll is adopted was observed before, or it is the poll's record.
pub adopt-observation :
    (loc : LocalState) (t u : ℕ) (next : NextState) (ob : Observation)
    → adopt loc t u next ≡ LocalState.observation ob
    → (loc ≡ LocalState.observation ob)
      ⊎ ((timer : ObservationTimer) × (next
            ≡ NextState.observation ob.owner ob.rank ob.lease_duration timer)
          × (u ≡ ob.first_observed_at))
unfolding adopt
adopt-observation loc t u (NextState.leadership r l) ob h = cc
adopt-observation LocalState.unknown t u (NextState.observation o r l timer) ob h =
    let (same, at) = fresh_observation o r l u ob h in inr (timer, ap (λ f. f timer) same, at)
adopt-observation (LocalState.leadership d) t u (NextState.observation o r l timer) ob h =
    let (same, at) = fresh_observation o r l u ob h in inr (timer, ap (λ f. f timer) same, at)
adopt-observation (LocalState.observation before) t u (NextState.observation o r l timer) ob h =
    elim (Bool-cases (keeps before o r l timer)) [
      | inl kept ↦ inl (rw kept at h)
      | inr fresh ↦
          let (same, at) = fresh_observation o r l u ob (rw fresh at h) in
          inr (timer, ap (λ f. f timer) same, at)
    ]

adopt-leadership :
    (loc : LocalState) (t u : ℕ) (next : NextState) (d : Leadership)
    → adopt loc t u next ≡ LocalState.leadership d
    → (next ≡ NextState.leadership d.rank d.lease_duration) × (t ≡ d.last_renewed_at)
unfolding adopt
adopt-leadership loc t u (NextState.leadership r l) d h =
    let same : ◌≡◌ {A = Leadership} (record { rank = r; lease_duration = l; last_renewed_at = t })
        d =
      cc in
    (
      ap (λ (x : Leadership). NextState.leadership x.rank x.lease_duration) same,
      ap (λ (x : Leadership). x.last_renewed_at) same,
    )
adopt-leadership LocalState.unknown t u (NextState.observation o r l timer) d h = cc
adopt-leadership (LocalState.leadership e) t u (NextState.observation o r l timer) d h = cc
adopt-leadership (LocalState.observation before) t u (NextState.observation o r l timer) d h =
    elim (Bool-cases (keeps before o r l timer)) [
      | inl kept ↦ (let no = rw kept at h in cc)
      | inr fresh ↦ (let no = rw fresh at h in cc)
    ]

-- A leader that adopts its poll claims what it had staged.
pub adopted-Claims :
    (s : System) (p : ParticipantId) (at : ℕ) (next : NextState)
    → s.phase p ≡ Phase.committed at next
    → (q : ParticipantId) (r l a : ℕ)
    → Claims
        (record s {
          local = update s.local p (adopt (s.local p) at s.now next);
          phase = update s.phase p Phase.idle;
        })
        q
        r
        l
        a
    → Claims s q r l a
adopted-Claims s p at next waits q r l a c = elim c [
  | Claims.held {l} h ↦ elim (update-cases s.local p q (adopt (s.local p) at s.now next) _ h) [
    | inl (same, new) ↦
        let (leads, anchor) = adopt-leadership (s.local p) at s.now next l new in
        rw (same, ← anchor) (Claims.staged (waits ∙ ap (Phase.committed at) leads))
    | inr before ↦ Claims.held before
  ]
  | Claims.staged h ↦ elim (update-cases s.phase p q Phase.idle _ h) [
    | inl (same, new) ↦ cc
    | inr before ↦ Claims.staged before
  ]
]
