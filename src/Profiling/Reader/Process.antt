-- ===== src/Profiling/Reader/Process.antt =====
-- foundationdb-profiling/src/reader.rs: the assembler, which puts chunks together. A map keeps one entry
-- for a key.
use foundationdb_rs.Prelude.{
  ℕ, zero, suc, ◌+◌, ◌%◌, ◌^◌, Bool, not, ◌&&◌, Option, none, some, List, [], ◌∷◌, ◌++◌, ◌==◌, ltb,
  leb, if◌then◌else◌, length,
}
use foundationdb_rs.Tuple.Versionstamp.{same_bytes}
use foundationdb_rs.Tuple.Compare.Total.{before}
use foundationdb_rs.Profiling.Reader.Keys.{Cursor, ChunkKey, parse}

pub data Assembled : Type 0 where
  complete : List ℕ → List ℕ → List ℕ → Assembled
  broken : List ℕ → List ℕ → Assembled

pub record Output : Type 0 where
  pub first_key : List ℕ
  pub last_key : List ℕ
  pub assembled : Assembled

pub record Partial : Type 0 where
  pub first_key : List ℕ
  pub id : List ℕ
  pub versionstamp : List ℕ
  pub last_versionstamp : List ℕ
  pub total : ℕ
  pub next_chunk : ℕ
  pub blob : List ℕ

-- A map from transaction ids
abbrev pub IdMap : Type 0 → Type 0
IdMap A = List (List ℕ × A)

module _ {A : Type 0} where
  unfoldable pub find : List ℕ → IdMap A → Option A
  find id [] = none
  find id ((k, a) ∷ rest) = let found = find id rest in if same_bytes k id then some a else found

  unfoldable pub remove : List ℕ → IdMap A → IdMap A
  remove id [] = []
  remove id ((k, a) ∷ rest) =
      let left = remove id rest in if same_bytes k id then left else (k, a) ∷ left

  unfoldable pub insert : List ℕ → A → IdMap A → IdMap A
  insert id a entries = (id, a) ∷ remove id entries

pub record Assembler : Type 0 where
  pub start : Cursor
  pub partials : IdMap Partial
  pub broken : IdMap ℕ
  pub outputs : List Output
  pub last_key : Option (List ℕ)

-- `Assembler::new`
unfoldable pub new : Cursor → Assembler
new start = record { start = start; partials = []; broken = []; outputs = []; last_key = none }

-- `outputs.get_mut(index)`, whose last key is set
unfoldable pub set_last_key : ℕ → List ℕ → List Output → List Output
set_last_key index key [] = []
set_last_key zero key (o ∷ outputs) = record o { last_key = key } ∷ outputs
set_last_key (suc index) key (o ∷ outputs) = o ∷ set_last_key index key outputs

-- `Assembler::report_broken`
unfoldable pub report_broken : Assembler → List ℕ → List ℕ → List ℕ → List ℕ → Assembler
report_broken a first_key versionstamp id key = elim (find id a.broken) [
  | some index ↦ record a { outputs = set_last_key index key a.outputs }
  | none ↦ record a {
    broken = insert id (length a.outputs) a.broken;
    outputs =
        a.outputs
        ++ record {
          first_key = first_key;
          last_key = key;
          assembled = Assembled.broken versionstamp id;
        }
          ∷ [];
  }
]

-- `Assembler::process`, from where no partial transaction takes the chunk
unfoldable pub process_first : Assembler → ChunkKey → List ℕ → List ℕ → Assembler
process_first a parsed key value =
    let a' =
      if parsed.chunk == 1 && leb 1 parsed.total
      then record a { broken = remove parsed.id a.broken }
      else a in
    if parsed.chunk == 1 && parsed.total == 1
    then record a' {
      outputs =
          a'.outputs
          ++ record {
            first_key = key;
            last_key = key;
            assembled = complete parsed.versionstamp parsed.id value;
          }
            ∷ [];
    }
    else if parsed.chunk == 1 && ltb 1 parsed.total
    then record a' {
      partials =
          insert parsed.id
            (record {
              first_key = key;
              id = parsed.id;
              versionstamp = parsed.versionstamp;
              last_versionstamp = parsed.versionstamp;
              total = parsed.total;
              next_chunk = 2;
              blob = value;
            })
            a'.partials;
    }
    else report_broken a' key parsed.versionstamp parsed.id key

-- The guard of `Assembler::process` for the next chunk of a partial transaction
abbrev pub continues : ChunkKey → Partial → Bool
continues parsed partial =
    parsed.total == partial.total
    && (parsed.chunk == partial.next_chunk
        && not (before parsed.versionstamp partial.last_versionstamp))

-- The rest of `Assembler::process` where a partial transaction continues
unfoldable pub continue_partial : Assembler → Partial → ChunkKey → List ℕ → List ℕ → Assembler
continue_partial a partial parsed key value =
    if parsed.chunk == partial.total
    then record a {
      outputs =
          a.outputs
          ++ record {
            first_key = partial.first_key;
            last_key = key;
            assembled = complete partial.versionstamp parsed.id (partial.blob ++ value);
          }
            ∷ [];
    }
    else record a {
      partials =
          insert parsed.id
            (record partial {
              blob = partial.blob ++ value;
              next_chunk = (partial.next_chunk + 1) % 2 ^ 32;
              last_versionstamp = parsed.versionstamp;
            })
            a.partials;
    }

-- `Assembler::process`
unfoldable pub process : Assembler → ChunkKey → List ℕ → List ℕ → Assembler
process a parsed key value = elim (find parsed.id a.partials) [
  | none ↦ process_first a parsed key value
  | some partial ↦
      let taken = record a { partials = remove parsed.id a.partials } in
      if continues parsed partial
      then continue_partial taken partial parsed key value
      else process_first (report_broken taken partial.first_key partial.versionstamp parsed.id key)
          parsed key value
]

-- `Assembler::push`
unfoldable pub push : Assembler → List ℕ → List ℕ → Assembler
push a key value =
    let seen = record a { last_key = some key } in
    elim (parse key) [ some parsed ↦ process seen parsed key value | none ↦ seen ]
