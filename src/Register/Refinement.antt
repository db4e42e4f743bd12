-- ===== src/Register/Refinement.antt =====
-- The operations in a transaction implement the ranked register.
use foundationdb_rs.Prelude.{
  ℕ, ◌^◌, ◌<◌, ◌≡◌, refl, ◌∙◌, Bool, true, false, ◌||◌, Option, none, some, List, [], ◌∷◌, length,
  ltb, leb, Bool-cases, inl, inr, ok, arith,
}
use foundationdb_rs.Store.Ranges.{Row, RangeStore}
use foundationdb_rs.Tuple.Bytes.{Memchr}
use foundationdb_rs.Tuple.Subspace.{Subspace, range}
use foundationdb_rs.Tuple.Typed.{Values}
use foundationdb_rs.Tuple.Typed.RoundTrip.{
  AreValues, pack_typed-encode_values, unpack_typed-encode_values, encode_values,
}
use foundationdb_rs.Register.Operations.{
  MetadataState, RegisterState, WriteResult, metadata_fields, state_schema_version,
  metadata_or_default, is_some, read_metadata, write_metadata, read_chunks, read_value, read, write,
  value, check_size,
}
use foundationdb_rs.Register.Keys.{
  state_place, values_begin, values_end, state_place_out, state_key-place, value_subspace-place,
}
use foundationdb_rs.Register.Chunks.{
  HoldsRows, rows_of, read_chunks_first, IsStored, write_value-IsStored,
}
use foundationdb_rs.Register.Abstract.{ranked_read, ranked_write, Blocks}

module _ (m : Memchr) (db : RangeStore) where
  -- The transaction holds this register: its metadata and its chunks are read without an error.
  pub record Holds (txn : db.Txn) (s : Subspace) (st : RegisterState) : Type 0 where
    pub maybe : Option MetadataState
    pub rows : List Row
    pub held : HoldsRows m db txn s rows
    pub metadata : read_metadata m db txn (state_place s) ≡ ok maybe
    pub ranks :
        metadata_or_default maybe
        ≡ record { max_read_rank = st.max_read_rank; max_write_rank = st.max_write_rank }
    pub shown : read_value m db txn s (is_some maybe) ≡ ok st.value
    pub small : (st.max_read_rank < 2 ^ 64) × (st.max_write_rank < 2 ^ 64)

  -- Metadata that is written is read back, and the rows of the value stay.
  write_metadata_lem :
      (txn : db.Txn) (s : Subspace) (state : MetadataState) (rows : List Row)
      → state.max_read_rank < 2 ^ 64
      → state.max_write_rank < 2 ^ 64
      → HoldsRows m db txn s rows
      → (txn' : db.Txn) × (write_metadata m db txn (state_place s) state ≡ ok txn')
        × (read_metadata m db txn' (state_place s) ≡ ok (some state))
        × HoldsRows m db txn' s rows
  unfolding write_metadata read_metadata
  write_metadata_lem txn s state rows small_read small_write held =
      let fields : Values metadata_fields =
        (state_schema_version, (state.max_read_rank, (state.max_write_rank, tt))) in
      let are : AreValues metadata_fields fields = (omega arith, (small_read, (small_write, tt))) in
      let (offset, packed) = pack_typed-encode_values m metadata_fields fields are in
      let bytes = encode_values metadata_fields fields in
      (
        db.set txn (state_place s) bytes,
        rw packed refl,
        rw
            (
              db.get_set txn (state_place s) bytes,
              unpack_typed-encode_values m metadata_fields fields are,
            )
            refl,
        db.stream_set_other txn (values_begin s) (values_end s) (state_place s) bytes
              (state_place_out s)
            ∙ held,
      )

  -- Where there is no metadata, there is no chunk either, so that metadata does not change the value.
  read_chunks-with_metadata :
      (values : Subspace) (rows : List Row) (has : Bool) (v : Option (List ℕ))
      → read_chunks m has values none rows 0 [] false ≡ ok v
      → read_chunks m true values none rows 0 [] false ≡ ok v
  unfolding read_chunks
  read_chunks-with_metadata values rows true v h = h
  read_chunks-with_metadata values [] false v h = h
  read_chunks-with_metadata values ((k, c) ∷ rows) false v h = cc

  read_value-moved :
      (txn txn' : db.Txn) (s : Subspace) (rows : List Row) (has : Bool) (v : Option (List ℕ))
      → HoldsRows m db txn s rows
      → HoldsRows m db txn' s rows
      → read_value m db txn s has ≡ ok v
      → read_value m db txn' s true ≡ ok v
  unfolding read_value range
  read_value-moved txn txn' s rows has v held held' shown =
      let (values, made, prefix) = value_subspace-place m s in
      let before : read_chunks m has values none rows 0 [] false ≡ ok v =
        rw (made, prefix, held) at shown in
      rw (made, prefix, held') (read_chunks-with_metadata values rows has v before)

  read_value-stored :
      (txn : db.Txn) (s : Subspace) (v : List ℕ)
      → IsStored m db txn s v
      → read_value m db txn s true ≡ ok (some v)
  unfolding read_value range
  read_value-stored txn s v h =
      let (values, made, prefix) = value_subspace-place m s in
      rw (made, prefix, h.held)
        (rw (read_chunks_first m values s h.first h.others prefix h.few, h.whole) refl)

  read_metadata-get :
      (txn txn' : db.Txn) (key : List ℕ)
      → db.get txn' key ≡ db.get txn key
      → read_metadata m db txn' key ≡ read_metadata m db txn key
  unfolding read_metadata
  read_metadata-get txn txn' key same = rw same refl

  pub read-refines :
      (txn : db.Txn) (s : Subspace) (st : RegisterState) (rank : ℕ)
      → Holds txn s st
      → rank < 2 ^ 64
      → (txn' : db.Txn) × (read m db txn s rank ≡ ok ((ranked_read st rank).0, txn'))
        × Holds txn' s (ranked_read st rank).1
  unfolding read ranked_read
  read-refines txn s st rank h small = elim (Bool-cases (ltb st.max_read_rank rank)) [
    | inl higher ↦
        let new : MetadataState = record {
          max_read_rank = rank;
          max_write_rank = st.max_write_rank;
        } in
        let (txn', written, back, held) =
          write_metadata_lem txn s new h.rows small (h.small).1 h.held in
        (
          txn',
          rw (state_key-place m s, h.metadata, h.shown, h.ranks, higher, written) refl,
          rw higher (record {
            maybe = some new;
            rows = h.rows;
            held = held;
            metadata = back;
            ranks = refl;
            shown =
                read_value-moved txn txn' s h.rows (is_some h.maybe) st.value h.held held h.shown;
            small = (small, (h.small).1);
          }),
        )
    | inr lower ↦
        (txn, rw (state_key-place m s, h.metadata, h.shown, h.ranks, lower) refl, rw lower h)
  ]

  pub write-refines :
      (txn : db.Txn) (s : Subspace) (st : RegisterState) (rank : ℕ) (v : List ℕ) (limit : Option ℕ)
      → Holds txn s st
      → rank < 2 ^ 64
      → length v < 2 ^ 63
      → check_size limit (length v) ≡ ok tt
      → (txn' : db.Txn) × (write m db txn s rank v limit ≡ ok ((ranked_write st rank v).0, txn'))
        × Holds txn' s (ranked_write st rank v).1
  unfolding write ranked_write
  write-refines txn s st rank v limit h small short fits =
      elim (Bool-cases (ltb rank st.max_read_rank || leb rank st.max_write_rank)) [
        | inl fenced ↦
            (txn, rw (fits, state_key-place m s, h.metadata, h.ranks, fenced) refl, rw fenced h)
        | inr free ↦
            let new : MetadataState = record {
              max_read_rank = st.max_read_rank;
              max_write_rank = rank;
            } in
            let (txn', written, back, held) =
              write_metadata_lem txn s new h.rows (h.small).0 small h.held in
            let (stored, saved, is_stored, kept) =
              write_value-IsStored m db txn' s v h.rows held short in
            (
              stored,
              rw (fits, state_key-place m s, h.metadata, h.ranks, free, written, saved) refl,
              rw free (record {
                maybe = some new;
                rows = rows_of s 0 (is_stored.first ∷ is_stored.others);
                held = is_stored.held;
                metadata = read_metadata-get txn' stored (state_place s) kept ∙ back;
                ranks = refl;
                shown = read_value-stored stored s v is_stored;
                small = ((h.small).0, small);
              }),
            )
      ]

  pub value-refines :
      (txn : db.Txn) (s : Subspace) (st : RegisterState)
      → Holds txn s st
      → value m db txn s ≡ ok st.value
  unfolding value
  value-refines txn s st h = rw (state_key-place m s, h.metadata, h.shown) refl

  -- A write of a rank that is fenced leaves the transaction as it was.
  pub write-Blocks :
      (txn : db.Txn) (s : Subspace) (st : RegisterState) (rank : ℕ) (v : List ℕ) (limit : Option ℕ)
      → Holds txn s st
      → Blocks st rank
      → check_size limit (length v) ≡ ok tt
      → write m db txn s rank v limit ≡ ok (WriteResult.aborted, txn)
  unfolding write
  write-Blocks txn s st rank v limit h fenced fits =
      rw (fits, state_key-place m s, h.metadata, h.ranks, fenced) refl
