-- ===== src/Register/Order.antt =====
-- Ranks are ordered by the sequence, and then by the process.
use foundationdb_rs.Prelude.{ℕ, ◌^◌, ◌<◌, ◌≡◌, ◌⊎◌, ◌↔◌, arith}
use foundationdb_rs.Register.{new_rank, rank_process, rank_sequence}

-- For a process and a sequence of 32 bits: both are read back from their rank, which is a `u64`; and
-- of two such ranks one is below the other exactly where its sequence is smaller, or the sequences are
-- the same and its process is smaller.
pub new_rank_lem :
    (p s q t : ℕ)
    → p < 2 ^ 32
    → s < 2 ^ 32
    → q < 2 ^ 32
    → t < 2 ^ 32
    → (new_rank p s < 2 ^ 64)
      × (rank_process (new_rank p s) ≡ p)
      × (rank_sequence (new_rank p s) ≡ s)
      × ((new_rank p s < new_rank q t) ↔ ((s < t) ⊎ ((s ≡ t) × (p < q))))
unfolding new_rank rank_process rank_sequence
new_rank_lem p s q t hp hs hq ht =
    (omega arith, omega arith, omega arith, ((λ h. ground arith), (λ h. ground arith)))
