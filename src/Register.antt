-- ===== src/Register.antt =====
-- foundationdb/src/recipes/ranked_register/types.rs: ranks, which fence off the writes of old leaders.
pub mod Order
pub mod Operations
pub mod Keys
pub mod Chunks
pub mod Abstract
pub mod Refinement
pub mod Fencing
mod Tests
use foundationdb_rs.Prelude.{ℕ, ◌+◌, ◌*◌, ◌/◌, ◌%◌, ◌^◌}

-- `Rank::new`: the process fills the low 32 bits and the sequence the high ones, so that `|` of the
-- two is their sum.
unfoldable pub new_rank : ℕ → ℕ → ℕ
new_rank process_id sequence = sequence * 2 ^ 32 + process_id

-- `Rank::process_id`: `as u32`
unfoldable pub rank_process : ℕ → ℕ
rank_process rank = rank % 2 ^ 32

-- `Rank::sequence`: `>> 32` and `as u32`
unfoldable pub rank_sequence : ℕ → ℕ
rank_sequence rank = rank / 2 ^ 32 % 2 ^ 32
