-- ===== src/Tuple/Codes.antt =====
-- foundationdb-tuple/src/lib.rs: the type codes of the tuple encoding, and the errors.
use foundationdb_rs.Prelude.{ℕ, Option}

abbrev pub nil_code : ℕ
nil_code = 0x00

abbrev pub bytes_code : ℕ
bytes_code = 0x01

abbrev pub string_code : ℕ
string_code = 0x02

abbrev pub nested_code : ℕ
nested_code = 0x05

abbrev pub negintstart : ℕ
negintstart = 0x0b

abbrev pub intzero : ℕ
intzero = 0x14

abbrev pub posintend : ℕ
posintend = 0x1d

abbrev pub float_code : ℕ
float_code = 0x20

abbrev pub double_code : ℕ
double_code = 0x21

abbrev pub false_code : ℕ
false_code = 0x26

abbrev pub true_code : ℕ
true_code = 0x27

abbrev pub versionstamp_code : ℕ
versionstamp_code = 0x33

abbrev pub escape : ℕ
escape = 0xff

-- The `io::Error` that packing can meet: a byte string whose length is no `u32`.
pub data IoError : Type 0 where
  invalid_data : IoError

-- `Message` is raised only for a byte that is no Boolean. `out_of_fuel` has no counterpart in the
-- program: it marks a run of the model that was given too little fuel.
pub data PackError : Type 0 where
  message : ℕ → PackError
  io_error : IoError → PackError
  trailing_bytes missing_bytes bad_string_format bad_prefix unsupported_int_length : PackError
  bad_code : ℕ → Option ℕ → PackError
  out_of_fuel : PackError
