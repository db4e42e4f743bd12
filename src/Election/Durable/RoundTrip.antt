-- ===== src/Election/Durable/RoundTrip.antt =====
-- A durable state is read back from its key.
use foundationdb_rs.Prelude.{
  ℕ, suc, ◌+◌, ◌*◌, ◌/◌, ◌%◌, ◌^◌, ◌≤◌, ◌<◌, ◌≡◌, refl, true, false, Option, none, some, List, [],
  ◌∷◌, ◌==◌, ltb, leb, lt→ltb, Bool-cases, inl, inr, length, ok, arith,
}
use native.Mathlib.Nat.{div-add-mod, mod-lt}
use foundationdb_rs.Store.{Store}
use foundationdb_rs.Tuple.Bytes.{Memchr}
use foundationdb_rs.Tuple.Utf8.{is_utf8}
use foundationdb_rs.Tuple.Typed.RoundTrip.{AreValues, unpack_typed-pack_typed}
use foundationdb_rs.Election.Types.{
  ParticipantId, Duration, encoded_size, max_encoded_bytes, new_participant,
}
use foundationdb_rs.Election.Step.{DurableState}
use foundationdb_rs.Election.Durable.{
  nanos_per_sec, fields, decode_owner, decode_lease, check_state, decode_fields, state_fields,
  decode_state, encode_state, read_state, write_state,
}

-- A participant that `ParticipantId::new` made, of a Rust string.
abbrev pub IsParticipant : ParticipantId → Type 0
IsParticipant o = (new_participant o ≡ ok o) × (is_utf8 o ≡ true)

-- A lease that is not zero, whose seconds fit in a `u64`.
abbrev pub IsLease : Duration → Type 0
IsLease l = (0 < l) × (l / nanos_per_sec < 2 ^ 64)

abbrev pub IsOwner : Option ParticipantId → Type 0
IsOwner none = Unit
IsOwner (some o) = IsParticipant o

-- What the revision says of the owner and of the lease.
abbrev pub AreFields : ℕ → Option ParticipantId → Option Duration → Type 0
AreFields r none none = r ≡ 0
AreFields r (some o) none = ⊥
AreFields r o (some l) = (0 < r) × IsLease l

-- A durable state that the protocol can write: the invariant that `decode_state` checks.
abbrev pub IsDurable : DurableState → Type 0
IsDurable s =
    (s.revision < 2 ^ 64) × IsOwner s.owner × AreFields s.revision s.owner s.lease_duration

encoded_size-lower : (v : List ℕ) (size : ℕ) → size ≤ encoded_size v size
unfolding encoded_size
encoded_size-lower [] size = omega arith
encoded_size-lower (b ∷ v) size = elim (Bool-cases (b == 0)) [
  | inl zero_byte ↦ rw zero_byte (omega (arith, encoded_size-lower v (suc size)))
  | inr other ↦ rw other (encoded_size-lower v size)
]

IsParticipant-small : (o : ParticipantId) → IsParticipant o → length o < 2 ^ 32
unfolding new_participant
IsParticipant-small [] h = omega arith
IsParticipant-small (b ∷ v) h =
    let size = encoded_size (b ∷ v) (length (b ∷ v) + 2) in
    elim (Bool-cases (ltb max_encoded_bytes size)) [
      | inl large ↦ (let no = rw large at (h.0) in cc)
      | inr fits ↦ ground (arith, encoded_size-lower (b ∷ v) (length (b ∷ v) + 2))
    ]

whole_lease : (l : ℕ) → l / nanos_per_sec * nanos_per_sec + l % nanos_per_sec ≡ l
whole_lease l = omega (arith, div-add-mod l nanos_per_sec)

decode_lease-fields :
    (l : ℕ) → decode_lease true (l / nanos_per_sec) (l % nanos_per_sec) ≡ ok (some l)
unfolding decode_lease
decode_lease-fields l =
    let below : leb nanos_per_sec (l % nanos_per_sec) ≡ false = ground (arith, mod-lt l) in
    rw (below, whole_lease l)

decode_fields-state_fields :
    (r : ℕ) (o : Option ParticipantId) (l : Option Duration)
    → IsOwner o
    → AreFields r o l
    → let s : DurableState = record { revision = r; owner = o; lease_duration = l } in
      decode_fields (state_fields s) ≡ ok s
unfolding decode_fields state_fields decode_owner check_state
decode_fields-state_fields r none none ho h = rw h (unfold decode_lease in refl)
decode_fields-state_fields r (some o) none ho h = absurd h
decode_fields-state_fields r none (some l) ho h =
    let created : (r == 0) ≡ false = ground arith in
    let positive : (l == 0) ≡ false = ground arith in
    rw (decode_lease-fields l, created, positive, lt→ltb 0 r h.0)
decode_fields-state_fields r (some o) (some l) ho h =
    let created : (r == 0) ≡ false = ground arith in
    let positive : (l == 0) ≡ false = ground arith in
    rw (decode_lease-fields l, ho.0, created, positive, lt→ltb 0 r h.0)

state_fields-AreValues :
    (r : ℕ) (o : Option ParticipantId) (l : Option Duration)
    → r < 2 ^ 64
    → IsOwner o
    → AreFields r o l
    → AreValues fields (state_fields (record { revision = r; owner = o; lease_duration = l }))
unfolding state_fields is_utf8
state_fields-AreValues r none none small ho h =
    (omega arith, (small, (tt, ((refl, omega arith), (tt, (omega arith, (omega arith, tt)))))))
state_fields-AreValues r (some o) none small ho h = absurd h
state_fields-AreValues r none (some l) small ho h = (
  omega arith,
  (small, (tt, ((refl, omega arith), (tt, ((h.1).1, (omega (arith, mod-lt l), tt)))))),
)
state_fields-AreValues r (some o) (some l) small ho h = (
  omega arith,
  (small, (tt, ((ho.1, IsParticipant-small o ho), (tt, ((h.1).1, (omega (arith, mod-lt l), tt)))))),
)

module _ (m : Memchr) where
  -- A durable state that satisfies the invariant of the protocol is encoded without a panic, and
  -- decoding the bytes gives it back.
  pub decode_state-encode_state :
      (s : DurableState)
      → IsDurable s
      → (value : List ℕ) × (encode_state m s ≡ ok value) × (decode_state m value ≡ ok s)
  unfolding decode_state encode_state
  decode_state-encode_state s (small, ho, h) =
      let r = s.revision in
      let (bs, offset, packed, read) =
        unpack_typed-pack_typed m fields (state_fields s)
          (state_fields-AreValues s.revision s.owner s.lease_duration small ho h) in
      (bs, rw packed, rw read (decode_fields-state_fields s.revision s.owner s.lease_duration ho h))

  module _ (db : Store) where
    -- What is written is what the transaction reads next.
    pub write_state-read_state :
        (txn : db.Txn) (key : List ℕ) (s : DurableState)
        → IsDurable s
        → (txn' : db.Txn) × (write_state m db txn key s ≡ ok txn')
          × (read_state m db txn' key ≡ ok s)
    unfolding write_state read_state
    write_state-read_state txn key s h =
        let (value, encoded, decoded) = decode_state-encode_state s h in
        (db.set txn key value, rw encoded, rw (db.get_set txn key value) decoded)
