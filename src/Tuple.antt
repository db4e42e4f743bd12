-- ===== src/Tuple.antt =====
-- foundationdb-tuple/src: the tuple layer, which encodes typed values as byte strings whose order
-- is the order of the values.
pub mod Codes
pub mod Offset
pub mod Bytes
pub mod Words
pub mod Integers
pub mod Floats
pub mod Utf8
pub mod Versionstamp
pub mod Element
pub mod Compare
pub mod Subspace
pub mod Typed
mod Tests
