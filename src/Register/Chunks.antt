-- ===== src/Register/Chunks.antt =====
-- The value of a register in its chunks: what is written is read back, whatever was there before.
use foundationdb_rs.Prelude.{
  ℕ, zero, suc, ◌+◌, ◌-◌, ◌/◌, ◌%◌, ◌^◌, ◌≤◌, ◌<◌, ◌≡◌, refl, ap, sym, ◌∙◌, true, false, none, some,
  List, [], ◌∷◌, ◌++◌, append_assoc, append-nil, length, length-append, length-drop, take, drop,
  take-drop, ◌==◌, ==_self, lt→ltb, if◌then◌else◌, ok, arith,
}
use foundationdb_rs.Store.Ranges.{Row, RangeStore, After}
use foundationdb_rs.Tuple.Bytes.{Memchr}
use foundationdb_rs.Tuple.Subspace.{Subspace, range}
use foundationdb_rs.Register.Operations.{
  max_value_chunk_bytes, chunks, value_chunk_count, read_chunks, write_chunks, write_value,
}
use foundationdb_rs.Register.Keys.{
  values_place, state_place, chunk_place, values_begin, values_end, chunk_place_lt,
  chunk_place-InRange, state_place_out, value_subspace-place, value_key-place,
  decode_value_index-place,
}

abbrev pub joined : List (List ℕ) → List ℕ
joined [] = []
joined (c ∷ cs) = c ++ joined cs

joined-chunks :
    (fuel size : ℕ) (v : List ℕ) → 0 < size → length v ≤ fuel → joined (chunks fuel size v) ≡ v
unfolding chunks
joined-chunks zero size [] positive enough = refl
joined-chunks zero size (b ∷ v) positive enough = absurd (omega arith)
joined-chunks (suc fuel) size [] positive enough = refl
joined-chunks (suc fuel) size (b ∷ v) positive enough =
    let left : length (drop size (b ∷ v)) ≤ fuel = omega (arith, length-drop size (b ∷ v)) in
    rw (joined-chunks fuel size (drop size (b ∷ v)) positive left) (take-drop size (b ∷ v))

chunks_cons :
    (fuel size b : ℕ) (v : List ℕ)
    → (c : List ℕ) × (cs : List (List ℕ)) × (chunks (suc fuel) size (b ∷ v) ≡ c ∷ cs)
unfolding chunks
chunks_cons fuel size b v = (take size (b ∷ v), chunks fuel size (drop size (b ∷ v)), refl)

-- The number of the chunks of some size, by division.
abbrev chunk_count : ℕ → ℕ
chunk_count n = n / max_value_chunk_bytes + (if n % max_value_chunk_bytes == 0 then 0 else 1)

suc-chunk_count : (n : ℕ) → 0 < n → suc (chunk_count (n - max_value_chunk_bytes)) ≡ chunk_count n
suc-chunk_count n h = ground arith

chunk_count-le : (n : ℕ) → chunk_count n ≤ n
chunk_count-le n = ground arith

value_chunk_count_pos : (n : ℕ) → 0 < n → value_chunk_count n ≡ chunk_count n
unfolding value_chunk_count
value_chunk_count_pos n h = ground arith

length-chunks :
    (fuel : ℕ) (v : List ℕ)
    → length v ≤ fuel
    → length (chunks fuel max_value_chunk_bytes v) ≡ chunk_count (length v)
unfolding chunks
length-chunks zero [] enough = refl
length-chunks zero (b ∷ v) enough = absurd (omega arith)
length-chunks (suc fuel) [] enough = refl
length-chunks (suc fuel) (b ∷ v) enough =
    let rest = drop max_value_chunk_bytes (b ∷ v) in
    let size = length-drop max_value_chunk_bytes (b ∷ v) in
    let left : length rest ≤ fuel = omega (arith, size) in
    rw (length-chunks fuel rest left, size) (suc-chunk_count (length (b ∷ v)) (omega arith))

-- The rows of the chunks, from a place on.
abbrev pub rows_of : Subspace → ℕ → List (List ℕ) → List Row
rows_of s place [] = []
rows_of s place (c ∷ cs) = (chunk_place s place, c) ∷ rows_of s (place + 1) cs

rows_of-After :
    (s : Subspace) (cs : List (List ℕ)) (place n : ℕ)
    → place + length cs ≤ n
    → n < 2 ^ 63
    → After (chunk_place s n) (rows_of s place cs)
rows_of-After s [] place n h small = tt
rows_of-After s (c ∷ cs) place n h small = (
  chunk_place_lt s place n (omega arith) small,
  rows_of-After s cs (place + 1) n (omega arith) small,
)

rows_of-append :
    (s : Subspace) (cs : List (List ℕ)) (place n : ℕ) (c : List ℕ)
    → n ≡ place + length cs
    → rows_of s place cs ++ (chunk_place s n, c) ∷ [] ≡ rows_of s place (cs ++ c ∷ [])
rows_of-append s [] place n c h =
    ap (λ k. (chunk_place s k, c) ∷ []) {x = n} {y = place} (omega arith)
rows_of-append s (d ∷ cs) place n c h =
    ap (λ (rows : List Row). (chunk_place s place, d) ∷ rows)
      (rows_of-append s cs (place + 1) n c (omega arith))

module _ (m : Memchr) where
  -- The loop reads the rows of chunks as what they are joined to.
  read_chunks-rows_of :
      (values s : Subspace) (cs : List (List ℕ)) (place : ℕ) (v : List ℕ)
      → values.prefix ≡ values_place s
      → place + length cs < 2 ^ 63
      → read_chunks m true values none (rows_of s place cs) place v true
        ≡ ok (some (v ++ joined cs))
  unfolding read_chunks
  read_chunks-rows_of values s [] place v prefix small = ap (λ w. ok (some w)) (sym (append-nil v))
  read_chunks-rows_of values s (c ∷ cs) place v prefix small =
      rw
        (
          decode_value_index-place m values s place prefix (omega arith),
          ==_self place,
          lt→ltb (place + 1) (2 ^ 64) (omega arith),
          read_chunks-rows_of values s cs (place + 1) (v ++ c) prefix (omega arith),
          append_assoc v c (joined cs),
        )
        refl

  -- The first chunk also tells that there is a value.
  pub read_chunks_first :
      (values s : Subspace) (c : List ℕ) (cs : List (List ℕ))
      → values.prefix ≡ values_place s
      → suc (length cs) < 2 ^ 63
      → read_chunks m true values none (rows_of s 0 (c ∷ cs)) 0 [] false
        ≡ ok (some (joined (c ∷ cs)))
  unfolding read_chunks
  read_chunks_first values s c cs prefix small =
      rw
        (
          decode_value_index-place m values s 0 prefix (omega arith),
          read_chunks-rows_of values s cs 1 c prefix (omega arith),
        )
        refl

  module _ (db : RangeStore) where
    -- The rows of the register's value in a transaction, which are read without an error.
    abbrev pub HoldsRows : db.Txn → Subspace → List Row → Type 0
    HoldsRows txn s rows = db.stream txn (values_begin s) (values_end s) ≡ (rows, none)

    -- The loop of chunks writes their rows behind those of the chunks before, and no other key.
    write_chunks-rows_of :
        (txn : db.Txn) (s : Subspace) (cs done : List (List ℕ))
        → HoldsRows txn s (rows_of s 0 done)
        → length done + length cs < 2 ^ 63
        → (txn' : db.Txn) × (write_chunks m db txn s cs (length done) ≡ ok txn')
          × HoldsRows txn' s (rows_of s 0 (done ++ cs))
          × (db.get txn' (state_place s) ≡ db.get txn (state_place s))
    unfolding write_chunks
    write_chunks-rows_of txn s [] done rows small = (txn, refl, rw (append-nil done) rows, refl)
    write_chunks-rows_of txn s (c ∷ cs) done rows small =
        let key = chunk_place s (length done) in
        let next = db.set txn key c in
        let added : HoldsRows next s (rows_of s 0 (done ++ c ∷ [])) =
          db.stream_set_last txn (values_begin s) (values_end s) key c (rows_of s 0 done) rows
            (chunk_place-InRange s (length done))
            (rows_of-After s done 0 (length done) (omega arith) (omega arith))
          ∙ ap (λ (r : List Row). (r, none))
              (rows_of-append s done 0 (length done) c (omega arith)) in
        let size : length (done ++ c ∷ []) ≡ length done + 1 = length-append done (c ∷ []) in
        let (txn', written, held, kept) =
          write_chunks-rows_of next s cs (done ++ c ∷ []) added (omega (arith, size)) in
        (
          txn',
          rw
              (
                lt→ltb (length done) (2 ^ 64) (omega arith),
                value_key-place m s (length done) (omega arith),
              )
              (rw (← size) written),
          rw (append_assoc done (c ∷ []) cs) at held,
          kept
              ∙ db.get_set_other txn key (state_place s) c
                  (λ same. state_place_out s (rw same (chunk_place-InRange s (length done)))),
        )

    -- What `write_value` leaves: the rows of chunks that are joined to the value.
    pub record IsStored (txn : db.Txn) (s : Subspace) (value : List ℕ) : Type 0 where
      pub first : List ℕ
      pub others : List (List ℕ)
      pub held : HoldsRows txn s (rows_of s 0 (first ∷ others))
      pub whole : joined (first ∷ others) ≡ value
      pub count : length (first ∷ others) ≡ value_chunk_count (length value)
      pub few : suc (length others) < 2 ^ 63

    pub write_value-IsStored :
        (txn : db.Txn) (s : Subspace) (value : List ℕ) (rows : List Row)
        → HoldsRows txn s rows
        → length value < 2 ^ 63
        → (txn' : db.Txn) × (write_value m db txn s value
            ≡ ok (txn', value_chunk_count (length value)))
          × IsStored txn' s value
          × (db.get txn' (state_place s) ≡ db.get txn (state_place s))
    unfolding write_value value_chunk_count range
    write_value-IsStored txn s [] rows held small =
        let (values, made, prefix) = value_subspace-place m s in
        let cleared = db.clear_range txn (values_begin s) (values_end s) in
        let key = chunk_place s 0 in
        (
          db.set cleared key [],
          rw (value_key-place m s 0 (omega arith), made, prefix) refl,
          record {
            first = [];
            others = [];
            held =
                db.stream_set_last cleared (values_begin s) (values_end s) key [] []
                  (db.stream_clear txn (values_begin s) (values_end s) rows held)
                  (chunk_place-InRange s 0) tt;
            whole = refl;
            count = refl;
            few = omega arith;
          },
          db.get_set_other cleared key (state_place s) []
                (λ same. state_place_out s (rw same (chunk_place-InRange s 0)))
              ∙ db.get_clear_other txn (values_begin s) (values_end s) (state_place s)
                  (state_place_out s),
        )
    write_value-IsStored txn s (b ∷ v) rows held small =
        let (values, made, prefix) = value_subspace-place m s in
        let cleared = db.clear_range txn (values_begin s) (values_end s) in
        let (c, cs, cut) = chunks_cons (length v) max_value_chunk_bytes b v in
        let split : chunks (length (b ∷ v)) max_value_chunk_bytes (b ∷ v) ≡ c ∷ cs = cut in
        let count : length (c ∷ cs) ≡ chunk_count (length (b ∷ v)) =
          rw split at (length-chunks (length (b ∷ v)) (b ∷ v) (omega arith)) in
        let whole : joined (c ∷ cs) ≡ b ∷ v = rw split at (
          joined-chunks (length (b ∷ v)) max_value_chunk_bytes (b ∷ v) (omega arith)
            (omega arith)) in
        let few : suc (length cs) < 2 ^ 63 =
          omega (arith, count, chunk_count-le (length (b ∷ v))) in
        let (txn', written, stored, kept) =
          write_chunks-rows_of cleared s (c ∷ cs) []
            (db.stream_clear txn (values_begin s) (values_end s) rows held) (omega (arith, few)) in
        (
          txn',
          rw (made, prefix, split, written) refl,
          record {
            first = c;
            others = cs;
            held = stored;
            whole = whole;
            count = count ∙ sym (value_chunk_count_pos (length (b ∷ v)) (omega arith));
            few = few;
          },
          kept
              ∙ db.get_clear_other txn (values_begin s) (values_end s) (state_place s)
                  (state_place_out s),
        )
