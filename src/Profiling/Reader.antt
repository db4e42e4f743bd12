-- ===== src/Profiling/Reader.antt =====
-- foundationdb-profiling/src/reader.rs: the pages of the profiling keyspace. The parts of the program are
-- passed on.
mod Keys
mod Process
mod Finish
mod Scan
pub mod Cut
pub mod Placed
pub mod Resume
pub mod Settle
pub mod Stays
pub mod Pages
pub mod Assemble
pub mod Reassembly
mod Tests
unfoldable pub use Keys.*
unfoldable pub use Process.*
unfoldable pub use Finish.*
unfoldable pub use Scan.*
