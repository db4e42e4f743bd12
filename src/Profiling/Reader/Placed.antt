-- ===== src/Profiling/Reader/Placed.antt =====
-- The keys that an assembler keeps lie between the start of its page and the last row.
use foundationdb_rs.Prelude.{
  ℕ, zero, suc, ◌≡◌, refl, arith, Bool, true, false, not, if◌then◌else◌, ◌==◌, ltb, leb, ◌&&◌, ◌+◌,
  ◌%◌, ◌^◌, Option, none, some, List, [], ◌∷◌, ◌++◌, All, All-append, inl, inr, Bool-cases,
  Option-cases,
}
use foundationdb_rs.Tuple.Versionstamp.{same_bytes}
use foundationdb_rs.Tuple.Compare.Total.{before, before_irrefl, not_before_trans}
use foundationdb_rs.Profiling.Reader.{
  Output, Partial, Assembler, Assembled, ChunkKey, IdMap, find, remove, insert, set_last_key,
  report_broken, process_first, continues, continue_partial, process, new,
}

-- A key that is no later than the last row
abbrev pub is_seen : Option (List ℕ) → List ℕ → Bool
is_seen none key = false
is_seen (some last) key = not (before last key)

-- An output begins in the page and ends at a row of it, at or behind its first row.
pub record IsOutput (start : List ℕ) (last : Option (List ℕ)) (o : Output) : Type 0 where
  pub inside : before o.first_key start ≡ false
  pub spans : before o.last_key o.first_key ≡ false
  pub seen : is_seen last o.last_key ≡ true

pub record IsPartial (start : List ℕ) (last : Option (List ℕ)) (p : Partial) : Type 0 where
  pub inside : before p.first_key start ≡ false
  pub seen : is_seen last p.first_key ≡ true

abbrev pub Each : {A : Type 0} → (A → Type 0) → IdMap A → Type 0
Each {A} P entries = All (λ (e : List ℕ × A). P e.1) entries

pub record IsPlaced (start : List ℕ) (last : Option (List ℕ)) (a : Assembler) : Type 0 where
  pub outputs : All (IsOutput start last) a.outputs
  pub partials : Each (IsPartial start last) a.partials

module _ {A : Type 0} (P : A → Type 0) where
  Each-find :
      (id : List ℕ) (entries : IdMap A) (x : A) → Each P entries → find id entries ≡ some x → P x
  unfolding find
  Each-find id [] x hs e = cc
  Each-find id ((k, y) ∷ rest) x hs e = elim (Bool-cases (same_bytes k id)) [
    | inl same ↦ let found = rw same at e in let here : y ≡ x = cc in rw (← here) hs.0
    | inr other ↦ Each-find id rest x hs.1 (rw other at e)
  ]

  Each-remove : (id : List ℕ) (entries : IdMap A) → Each P entries → Each P (remove id entries)
  unfolding remove
  Each-remove id [] hs = tt
  Each-remove id ((k, y) ∷ rest) hs = elim (Bool-cases (same_bytes k id)) [
    | inl same ↦ rw same (Each-remove id rest hs.1)
    | inr other ↦ rw other (hs.0, Each-remove id rest hs.1)
  ]

  Each-insert :
      (id : List ℕ) (x : A) (entries : IdMap A)
      → P x
      → Each P entries
      → Each P (insert id x entries)
  unfolding insert
  Each-insert id x entries h hs = (h, Each-remove id entries hs)

-- Adding an output, or a partial transaction
IsPlaced-output :
    (start : List ℕ) (last : Option (List ℕ)) (a : Assembler) (o : Output)
    → IsOutput start last o
    → IsPlaced start last a
    → IsPlaced start last (record a { outputs = a.outputs ++ o ∷ [] })
IsPlaced-output start last a o h ha = record {
  outputs = All-append (IsOutput start last) a.outputs (o ∷ []) ha.outputs (h, tt);
  partials = ha.partials;
}

IsPlaced-partial :
    (start : List ℕ) (last : Option (List ℕ)) (a : Assembler) (id : List ℕ) (p : Partial)
    → IsPartial start last p
    → IsPlaced start last a
    → IsPlaced start last (record a { partials = insert id p a.partials })
IsPlaced-partial start last a id p h ha = record {
  outputs = ha.outputs;
  partials = Each-insert (IsPartial start last) id p a.partials h ha.partials;
}

module _ (start key : List ℕ) (behind : before key start ≡ false) where
  abbrev Here : Assembler → Type 0
  Here a = IsPlaced start (some key) a

  set_last_key-All :
      (i : ℕ) (os : List Output)
      → All (IsOutput start (some key)) os
      → All (IsOutput start (some key)) (set_last_key i key os)
  unfolding set_last_key
  set_last_key-All i [] hs = tt
  set_last_key-All zero (o ∷ os) hs =
      let h = hs.0 in
      let seen = h.seen in
      let reached : before key o.last_key ≡ false = ground arith in
      (
        record {
          inside = h.inside;
          spans = not_before_trans o.first_key o.last_key key h.spans reached;
          seen = rw (before_irrefl key) refl;
        },
        hs.1,
      )
  set_last_key-All (suc i) (o ∷ os) hs = (hs.0, set_last_key-All i os hs.1)

  report_broken-Here :
      (a : Assembler) (first stamp id : List ℕ)
      → before first start ≡ false
      → before key first ≡ false
      → Here a
      → Here (report_broken a first stamp id key)
  unfolding report_broken
  report_broken-Here a first stamp id inside reached ha = elim (Option-cases (find id a.broken)) [
    | inl absent ↦
        rw (absent, report_broken)
          (record {
            outputs =
                All-append (IsOutput start (some key)) a.outputs
                  (record {
                    first_key = first;
                    last_key = key;
                    assembled = Assembled.broken stamp id;
                  }
                    ∷ [])
                  ha.outputs
                  (
                    record { inside = inside; spans = reached; seen = rw (before_irrefl key) refl },
                    tt,
                  );
            partials = ha.partials;
          })
    | inr (i, there) ↦
        rw (there, report_broken)
          (record { outputs = set_last_key-All i a.outputs ha.outputs; partials = ha.partials })
  ]

  process_first-Here :
      (a : Assembler) (parsed : ChunkKey) (value : List ℕ)
      → Here a
      → Here (process_first a parsed key value)
  unfolding process_first
  process_first-Here a parsed value ha =
      let a' =
        if parsed.chunk == 1 && leb 1 parsed.total
        then record a { broken = remove parsed.id a.broken }
        else a in
      let same : Here a' = elim (Bool-cases (parsed.chunk == 1 && leb 1 parsed.total)) [
        | inl new ↦ rw new (record { outputs = ha.outputs; partials = ha.partials })
        | inr other ↦ rw other ha
      ] in
      elim (Bool-cases (parsed.chunk == 1 && parsed.total == 1)) [
        | inl single ↦ rw single (
            IsPlaced-output start (some key) a'
              (record {
                first_key = key;
                last_key = key;
                assembled = Assembled.complete parsed.versionstamp parsed.id value;
              })
              (record {
                inside = behind;
                spans = before_irrefl key;
                seen = rw (before_irrefl key) refl;
              })
              same)
        | inr more ↦ elim (Bool-cases (parsed.chunk == 1 && ltb 1 parsed.total)) [
          | inl begins ↦
              rw (more, begins)
                (IsPlaced-partial start (some key) a' parsed.id
                  (record {
                    first_key = key;
                    id = parsed.id;
                    versionstamp = parsed.versionstamp;
                    last_versionstamp = parsed.versionstamp;
                    total = parsed.total;
                    next_chunk = 2;
                    blob = value;
                  })
                  (record { inside = behind; seen = rw (before_irrefl key) refl }) same)
          | inr out ↦
              rw (more, out)
                (report_broken-Here a' key parsed.versionstamp parsed.id behind (before_irrefl key)
                  same)
        ]
      ]

  continue_partial-Here :
      (a : Assembler) (p : Partial) (parsed : ChunkKey) (value : List ℕ)
      → IsPartial start (some key) p
      → Here a
      → Here (continue_partial a p parsed key value)
  unfolding continue_partial
  continue_partial-Here a p parsed value h ha =
      let seen = h.seen in
      let reached : before key p.first_key ≡ false = ground arith in
      elim (Bool-cases (parsed.chunk == p.total)) [
        | inl last ↦ rw last (
            IsPlaced-output start (some key) a
              (record {
                first_key = p.first_key;
                last_key = key;
                assembled = Assembled.complete p.versionstamp parsed.id (p.blob ++ value);
              })
              (record { inside = h.inside; spans = reached; seen = rw (before_irrefl key) refl })
              ha)
        | inr more ↦ rw more (
            IsPlaced-partial start (some key) a parsed.id
              (record p {
                blob = p.blob ++ value;
                next_chunk = (p.next_chunk + 1) % 2 ^ 32;
                last_versionstamp = parsed.versionstamp;
              })
              (record { inside = h.inside; seen = h.seen }) ha)
      ]

  pub process-Here :
      (a : Assembler) (parsed : ChunkKey) (value : List ℕ)
      → Here a
      → Here (process a parsed key value)
  unfolding process
  process-Here a parsed value ha = elim (Option-cases (find parsed.id a.partials)) [
    | inl absent ↦ rw (absent, process) (process_first-Here a parsed value ha)
    | inr (p, there) ↦
        let h = Each-find (IsPartial start (some key)) parsed.id a.partials p ha.partials there in
        let taken = record a { partials = remove parsed.id a.partials } in
        let left : Here taken = record {
          outputs = ha.outputs;
          partials = Each-remove (IsPartial start (some key)) parsed.id a.partials ha.partials;
        } in
        let seen = h.seen in
        let reached : before key p.first_key ≡ false = ground arith in
        elim (Bool-cases (continues parsed p)) [
          | inl next ↦ rw (there, next, process) (continue_partial-Here taken p parsed value h left)
          | inr breaks ↦
              rw (there, breaks, process)
                (process_first-Here (report_broken taken p.first_key p.versionstamp parsed.id key)
                  parsed value
                  (report_broken-Here taken p.first_key p.versionstamp parsed.id h.inside reached
                    left))
        ]
  ]
