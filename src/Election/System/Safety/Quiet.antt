-- ===== src/Election/System/Safety/Quiet.antt =====
-- The steps that write nothing keep the system safe.
use foundationdb_rs.Prelude.{ℕ, ◌+◌, ◌≡◌, inl, inr, refl, ap, ◌∙◌, arith}
use foundationdb_rs.Election.Types.{ParticipantId, Duration, LocalState, NextState, adopt}
use foundationdb_rs.Election.System.{Phase, System, update, Claims}
use foundationdb_rs.Election.System.Safety.{
  IsSafe, update-cases, weaken, older-Claims, adopt-observation, adopted-Claims,
}

module _ (lease : ParticipantId → Duration) (s : System) (safe : IsSafe lease s) where
  pub tick-IsSafe : (d : ℕ) → IsSafe lease (record s { now = s.now + d })
  tick-IsSafe d =
      weaken lease s (record s { now = s.now + d }) safe refl (omega arith)
        (λ p r l a c. elim c [ Claims.held h ↦ Claims.held h | Claims.staged h ↦ Claims.staged h ])
        (λ q ob h. inl h) (λ q at h. inl h) (λ q at o r l timer h. inl h)

  pub start-IsSafe :
      (p : ParticipantId)
      → IsSafe lease (record s { phase = update s.phase p (Phase.started s.now) })
  start-IsSafe p =
      let t : System = record s { phase = update s.phase p (Phase.started s.now) } in
      weaken lease s t safe refl (omega arith)
        (older-Claims s t p (Phase.started s.now) refl refl (λ at r l h. cc)) (λ q ob h. inl h)
        (λ q at h. elim (update-cases s.phase p q (Phase.started s.now) _ h) [
          | inl (same, new) ↦ inr (let now_is : s.now ≡ at = cc in omega arith)
          | inr before ↦ inl before
        ])
        (λ q at o r l timer h. elim (update-cases s.phase p q (Phase.started s.now) _ h) [
          | inl (same, new) ↦ cc
          | inr before ↦ inl before
        ])

  -- A phase that ends without a claim, while the local state is kept or forgotten.
  pub idle-IsSafe :
      (p : ParticipantId) → IsSafe lease (record s { phase = update s.phase p Phase.idle })
  idle-IsSafe p =
      let t : System = record s { phase = update s.phase p Phase.idle } in
      weaken lease s t safe refl (omega arith)
        (older-Claims s t p Phase.idle refl refl (λ at r l h. cc)) (λ q ob h. inl h)
        (λ q at h. elim (update-cases s.phase p q Phase.idle _ h) [
          | inl (same, new) ↦ cc
          | inr before ↦ inl before
        ])
        (λ q at o r l timer h. elim (update-cases s.phase p q Phase.idle _ h) [
          | inl (same, new) ↦ cc
          | inr before ↦ inl before
        ])

  pub forget-IsSafe :
      (p : ParticipantId) → IsSafe lease (record s { local = update s.local p LocalState.unknown })
  forget-IsSafe p =
      weaken lease s (record s { local = update s.local p LocalState.unknown }) safe refl
        (omega arith)
        (λ q r l a c. elim c [
          | Claims.held h ↦ elim (update-cases s.local p q LocalState.unknown _ h) [
            | inl (same, new) ↦ cc
            | inr before ↦ Claims.held before
          ]
          | Claims.staged h ↦ Claims.staged h
        ])
        (λ q ob h. elim (update-cases s.local p q LocalState.unknown _ h) [
          | inl (same, new) ↦ cc
          | inr before ↦ inl before
        ])
        (λ q at h. inl h) (λ q at o r l timer h. inl h)

  pub adopted-IsSafe :
      (p : ParticipantId) (at : Duration) (next : NextState)
      → s.phase p ≡ Phase.committed at next
      → IsSafe lease (record s {
        local = update s.local p (adopt (s.local p) at s.now next);
        phase = update s.phase p Phase.idle;
      })
  adopted-IsSafe p at next waits =
      let loc = adopt (s.local p) at s.now next in
      let t : System = record s {
        local = update s.local p loc;
        phase = update s.phase p Phase.idle;
      } in
      weaken lease s t safe refl (omega arith) (adopted-Claims s p at next waits)
        (λ q ob h. elim (update-cases s.local p q loc _ h) [
          | inl (same, new) ↦ elim (adopt-observation (s.local p) at s.now next ob new) [
            | inl kept ↦ inl (rw same kept)
            | inr (timer, shown, anchor) ↦ inr (
              safe.staged p at ob.owner ob.rank ob.lease_duration timer
                  (waits ∙ ap (Phase.committed at) shown),
              omega arith,
            )
          ]
          | inr before ↦ inl before
        ])
        (λ q at h. elim (update-cases s.phase p q Phase.idle _ h) [
          | inl (same, new) ↦ cc
          | inr before ↦ inl before
        ])
        (λ q at o r l timer h. elim (update-cases s.phase p q Phase.idle _ h) [
          | inl (same, new) ↦ cc
          | inr before ↦ inl before
        ])
