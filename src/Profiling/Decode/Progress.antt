-- ===== src/Profiling/Decode/Progress.antt =====
-- Each event moves the reader of a profiling blob on, so that decoding comes to an end.
use foundationdb_rs.Prelude.{
  ℕ, zero, suc, ◌+◌, ◌<◌, ◌≡◌, refl, ap, ◌∙◌, Bool-cases, inl, inr, some, List, [], ◌∷◌, length,
  ◌==◌, Result, ok, err, Result-cases, ℤ, pos, negsuc, arith,
}
use foundationdb_rs.Profiling.{ProtocolVersion, EventHeader, Event, KeyRange, Mutation}
use foundationdb_rs.Profiling.Decode.{
  DecodeError, Reader, remaining, i32, conflict_range, widen_range, span_context, strip_checksum,
  mutation, commit_request, event_body, event_of, event, events, after_version, decode_events,
  is_supported, unsupported_protocol_version, u64,
}
use foundationdb_rs.Profiling.Decode.Advances.{
  IsReader, Advances, Advances-pure, Advances-fail, Advances-less, Advances-if, Advances-then,
  Advances-offset, Advances-unsigned, Advances-i32, Advances-i64, some_bytes, Advances-bool,
  Advances-bytes, Advances-key_range, Advances-vec, Advances-optional, Advances-header,
}

Advances-widen_range : (at : ℕ) (range : KeyRange) → Advances 0 (widen_range at range)
unfolding widen_range
Advances-widen_range at range =
    Advances-if 0 _ _ _ (Advances-if 0 _ _ _ (Advances-fail 0 _) (Advances-pure _))
      (Advances-pure _)

Advances-conflict_range : Advances 0 conflict_range
unfolding conflict_range
Advances-conflict_range =
    Advances-then 0 _ _ Advances-offset
      (λ at. Advances-then 0 _ _ Advances-key_range (λ range. Advances-widen_range at range))

Advances-strip_checksum : (at : ℕ) (m : Mutation) → Advances 0 (strip_checksum at m)
unfolding strip_checksum
Advances-strip_checksum at m =
    Advances-if 0 _ _ _ (Advances-if 0 _ _ _ (Advances-fail 0 _) (Advances-pure _))
      (Advances-pure _)

Advances-mutation : Advances 0 mutation
unfolding mutation
Advances-mutation = Advances-then 0 _ _ Advances-offset (λ at.
    Advances-then 0 _ _ (some_bytes 1) (λ t. Advances-then 0 _ _ Advances-bytes (λ p.
      Advances-then 0 _ _ Advances-bytes
        (λ q. Advances-then 0 _ _ (Advances-strip_checksum at _) (λ m. Advances-pure _)))))

Advances-span_context : (version : ProtocolVersion) → Advances 0 (span_context version)
unfolding span_context
Advances-span_context version = Advances-then 0 _ _ (some_bytes 8) (λ a.
    Advances-then 0 _ _ (some_bytes 8) (λ b.
      Advances-if 0 _ _ _
        (Advances-then 0 _ _ (some_bytes 8)
          (λ s. Advances-then 0 _ _ (some_bytes 1) (λ f. Advances-pure _)))
        (Advances-pure _)))

Advances-commit_request : (version : ProtocolVersion) → Advances 0 (commit_request version)
unfolding commit_request
Advances-commit_request version = Advances-then 0 _ _ (Advances-vec _ Advances-conflict_range) (λ r.
    Advances-then 0 _ _ (Advances-vec _ Advances-conflict_range) (λ w.
      Advances-then 0 _ _ (Advances-vec _ Advances-mutation) (λ m.
        Advances-then 0 _ _ Advances-i64 (λ s. Advances-then 0 _ _ Advances-bool (λ c.
          Advances-then 0 _ _ Advances-bool (λ l.
            Advances-then 0 _ _ (Advances-optional _ (Advances-span_context version))
              (λ o. Advances-pure _)))))))

still_i32 : Advances 0 i32
still_i32 = Advances-less 4 0 i32 (omega arith) Advances-i32

Advances-event_body :
    (version : ProtocolVersion) (h : EventHeader) (n : ℕ) → Advances 0 (event_body version h n)
unfolding event_body
Advances-event_body version h zero = Advances-then 0 _ _ (some_bytes 8) (λ l.
    Advances-then 0 _ _ (some_bytes 4)
      (λ p. Advances-then 0 _ _ Advances-i64 (λ v. Advances-pure _)))
Advances-event_body version h (suc zero) = Advances-then 0 _ _ (some_bytes 8) (λ l.
    Advances-then 0 _ _ still_i32 (λ s. Advances-then 0 _ _ Advances-bytes (λ k. Advances-pure _)))
Advances-event_body version h (suc (suc zero)) = Advances-then 0 _ _ (some_bytes 8) (λ l.
    Advances-then 0 _ _ still_i32
      (λ s. Advances-then 0 _ _ Advances-key_range (λ k. Advances-pure _)))
Advances-event_body version h (suc (suc (suc zero))) = Advances-then 0 _ _ (some_bytes 8) (λ l.
    Advances-then 0 _ _ still_i32 (λ n. Advances-then 0 _ _ still_i32 (λ b.
      Advances-then 0 _ _ Advances-i64
        (λ v. Advances-then 0 _ _ (Advances-commit_request version) (λ r. Advances-pure _)))))
Advances-event_body version h (suc (suc (suc (suc zero)))) =
    Advances-then 0 _ _ still_i32 (λ e. Advances-then 0 _ _ Advances-bytes (λ k. Advances-pure _))
Advances-event_body version h (suc (suc (suc (suc (suc zero))))) =
    Advances-then 0 _ _ still_i32
      (λ e. Advances-then 0 _ _ Advances-key_range (λ k. Advances-pure _))
Advances-event_body version h (suc (suc (suc (suc (suc (suc zero)))))) =
    Advances-then 0 _ _ still_i32
      (λ e. Advances-then 0 _ _ (Advances-commit_request version) (λ r. Advances-pure _))
Advances-event_body version h (suc (suc (suc (suc (suc (suc (suc n))))))) = Advances-fail 0 _

Advances-event_of : (version : ProtocolVersion) (t : ℤ) → Advances 0 (event_of version t)
unfolding event_of
Advances-event_of version (negsuc n) = Advances-fail 0 _
Advances-event_of version (pos n) =
    Advances-if 0 _ _ _ (Advances-then 0 _ _ Advances-header (λ h. Advances-event_body version h n))
      (Advances-fail 0 _)

Advances-event : (version : ProtocolVersion) → Advances 4 (event version)
unfolding event
Advances-event version = Advances-then 4 _ _ Advances-i32 (λ t. Advances-event_of version t)

-- With a unit of fuel for each byte that is left, and one more, the loop comes to an end.
events_total :
    (fuel : ℕ) (version : ProtocolVersion) (r : Reader)
    → IsReader r
    → remaining r < fuel
    → (result : Result DecodeError (List Event)) × (events fuel version r ≡ some result)
unfolding events
events_total zero version r inside enough = absurd (omega arith)
events_total (suc fuel) version r inside enough = elim (Bool-cases (remaining r == 0)) [
  | inl done ↦ (ok [], rw done refl)
  | inr more ↦ elim (Result-cases (event version r)) [
    | inr (e, failed) ↦ (err e, rw (more, failed) refl)
    | inl ((x, r'), read) ↦
        let (buf, moved, inside') = (Advances-event version).moves r x r' inside read in
        let left : remaining r' < fuel = rw buf (ground arith) in
        let (result, rest) = events_total fuel version r' inside' left in
        elim (Result-cases result) [
          | inl (xs, good) ↦ (ok (x ∷ xs), rw (more, read, rest, good) refl)
          | inr (e, bad) ↦ (err e, rw (more, read, rest, bad) refl)
        ]
  ]
]

after_version_total :
    (fuel : ℕ) (version : ProtocolVersion) (r : Reader) (result : Result DecodeError (List Event))
    → events fuel version r ≡ some result
    → (decoded : Result DecodeError (ProtocolVersion × List Event)) × (after_version fuel
          (ok (version, r))
        ≡ some decoded)
unfolding after_version
after_version_total fuel version r (ok xs) loop = elim (Bool-cases (is_supported version)) [
  | inl known ↦ (ok (version, xs), rw (known, loop) refl)
  | inr other ↦ (err (unsupported_protocol_version version), rw other refl)
]
after_version_total fuel version r (err e) loop = elim (Bool-cases (is_supported version)) [
  | inl known ↦ (err e, rw (known, loop) refl)
  | inr other ↦ (err (unsupported_protocol_version version), rw other refl)
]

-- Decoding any blob comes to an end, with its events or with an error.
pub decode_events_total :
    (blob : List ℕ)
    → (result : Result DecodeError (ProtocolVersion × List Event)) × (decode_events blob
        ≡ some result)
unfolding decode_events after_version
decode_events_total blob =
    let start : Reader = record { buf = blob; pos = 0 } in
    elim (Result-cases (u64 start)) [
      | inr (e, failed) ↦ (err e, ap (after_version (length blob + 1)) failed)
      | inl ((version, r), read) ↦
          let (buf, moved, inside) =
            (Advances-unsigned 8).moves start version r (omega arith) read in
          let left : remaining r < length blob + 1 = rw buf (omega arith) in
          let (result, loop) = events_total (length blob + 1) version r inside left in
          let (decoded, done) = after_version_total (length blob + 1) version r result loop in
          (decoded, ap (after_version (length blob + 1)) read ∙ done)
    ]
