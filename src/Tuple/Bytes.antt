-- ===== src/Tuple/Bytes.antt =====
-- foundationdb-tuple/src/pack.rs: reading bytes, and the escaped form of byte strings.
pub mod Escaped
use foundationdb_rs.Prelude.{
  ℕ, suc, ◌<◌, ◌^◌, ◌≡◌, Bool, false, Option, none, some, List, [], ◌∷◌, ◌++◌, ltb, ◌==◌,
  if◌then◌else◌, length, get_elem?, take, drop, slice, Result, ok, err, ◌>>=◌, add_u32,
}
use foundationdb_rs.Tuple.Codes.{
  IoError, invalid_data, PackError, missing_bytes, bad_code, nil_code, escape,
}
use foundationdb_rs.Tuple.Offset.{VersionstampOffset}

abbrev pub IsByte : ℕ → Type 0
IsByte b = b < 256

-- Rust's `PackResult<(&[u8], A)>`: the input that is left, then the value.
abbrev pub Parsed {ℓ} : Type ℓ → Type ℓ
Parsed A = Result PackError (List ℕ × A)

-- The bytes that a `pack` call writes, and the offset that it returns.
abbrev pub Packed : Type 0
Packed = Result IoError (List ℕ × VersionstampOffset)

-- The positions of `n` in a list, the first element standing at `i`.
abbrev pub positions : ℕ → ℕ → List ℕ → List ℕ
positions n i [] = []
positions n i (x ∷ xs) = let later = positions n (suc i) xs in if x == n then i ∷ later else later

-- The `memchr` crate: `memchr_iter(n, v)` gives the positions of `n` in `v`, from left to right.
pub record Memchr : Type 0 where
  pub iter : ℕ → List ℕ → List ℕ
  pub iter_positions : (n : ℕ) (v : List ℕ) → iter n v ≡ positions n 0 v

unfoldable pub parse_bytes : List ℕ → ℕ → Parsed (List ℕ)
parse_bytes input num =
    if ltb (length input) num then err missing_bytes else ok (drop num input, take num input)

unfoldable pub parse_byte : List ℕ → Parsed ℕ
parse_byte [] = err missing_bytes
parse_byte (b ∷ input) = ok (input, b)

unfoldable pub parse_code : List ℕ → ℕ → Result PackError (List ℕ)
unfolding parse_byte
parse_code input expected = do
  (rest, found) ← parse_byte input
  if found == expected then ok rest else err (bad_code found (some expected))

-- The loop of `write_bytes` over the positions of NIL; it returns what has been written and the size.
unfoldable pub write_loop : List ℕ → List ℕ → ℕ → ℕ → List ℕ → List ℕ × ℕ
write_loop v [] pos size out = (out ++ (drop pos v ++ nil_code ∷ []), add_u32 size 2)
write_loop v (idx ∷ ids) pos size out =
    write_loop v ids (suc idx) (add_u32 size 1) (out ++ (slice v pos (suc idx) ++ escape ∷ []))

abbrev pub is_escape : Option ℕ → Bool
is_escape none = false
is_escape (some b) = b == escape

-- The loop of `parse_slice` over the positions of NIL.
unfoldable pub parse_loop : List ℕ → List ℕ → ℕ → List ℕ → Parsed (List ℕ)
parse_loop input [] pos bytes = err missing_bytes
parse_loop input (idx ∷ ids) pos bytes =
    let escaped = parse_loop input ids (suc (suc idx)) (bytes ++ slice input pos (suc idx)) in
    if is_escape (get_elem? input (suc idx))
    then escaped
    else ok (
      drop (suc idx) input,
      if pos == 0 then slice input pos idx else bytes ++ slice input pos idx,
    )

module _ (m : Memchr) where
  unfoldable pub write_bytes : List ℕ → Packed
  unfolding write_loop
  write_bytes v =
      if ltb (length v) (2 ^ 32)
      then (let (out, size) = write_loop v (m.iter nil_code v) 0 (length v) [] in
          ok (out, VersionstampOffset.none size))
      else err invalid_data

  unfoldable pub parse_slice : List ℕ → Parsed (List ℕ)
  unfolding parse_loop
  parse_slice input = parse_loop input (m.iter nil_code input) 0 []
