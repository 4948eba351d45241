-- ===== src/PeerId/Errors.antt =====
-- sf-peer-id/src/error.rs. The variants that exist only on wasm32 are left out.
use sf_rs.Prelude.{ℕ, List, [], Bool, true, false, ◌&&◌, ◌==◌, ◌≡◌, arith, ◌↔◌}

-- `std::io::ErrorKind`, as far as the crate meets it.
pub data ErrorKind : Type 0 where
  unexpected_eof write_zero other : ErrorKind

-- `std::io::Error`: a kind, and a message that equality ignores.
pub record IoError : Type 0 where
  pub kind : ErrorKind
  pub message : List ℕ

-- `unsigned_varint::decode::Error`.
pub data DecodeError : Type 0 where
  insufficient overflow not_minimal : DecodeError

pub data Error : Type 0 where
  invalid_length : (expected actual : ℕ) → Error
  invalid_hex_encoding : (c index : ℕ) → Error
  io : IoError → Error
  varint : DecodeError → Error

-- `unsigned_varint::io::ReadError`. It is non-exhaustive; `unknown` is any further variant.
pub data ReadError : Type 0 where
  read_io : IoError → ReadError
  read_decode : DecodeError → ReadError
  read_unknown : ReadError

unfoldable pub kind_eq : ErrorKind → ErrorKind → Bool
kind_eq unexpected_eof unexpected_eof = true
kind_eq write_zero write_zero = true
kind_eq other other = true
kind_eq _ _ = false

unfoldable pub decode_error_eq : DecodeError → DecodeError → Bool
decode_error_eq insufficient insufficient = true
decode_error_eq overflow overflow = true
decode_error_eq not_minimal not_minimal = true
decode_error_eq _ _ = false

-- `impl PartialEq for Error`.
unfoldable pub error_eq : Error → Error → Bool
unfolding kind_eq decode_error_eq
error_eq (invalid_length expected actual) (invalid_length e a) = expected == e && actual == a
error_eq (invalid_hex_encoding c index) (invalid_hex_encoding cc i) = c == cc && index == i
error_eq (io e) (io other_err) = kind_eq e.kind other_err.kind
error_eq (varint e) (varint other_err) = decode_error_eq e other_err
error_eq _ _ = false

-- `impl From<ReadError> for Error`.
unfoldable pub from_read_error : ReadError → Error
from_read_error (read_io e) = io e
from_read_error (read_decode e) = varint e
from_read_error read_unknown = varint insufficient

-- What an error says once the message of an `Io` is forgotten.
abbrev pub forget_message : Error → Error
forget_message (io e) = io (record e { message = [] })
forget_message e = e

-- Two errors compare equal exactly when they differ at most in the message of an `Io` error; so the
-- comparison is an equivalence relation.
pub error_eq_iff : (a b : Error) → (error_eq a b ≡ true) ↔ (forget_message a ≡ forget_message b)
unfolding error_eq
error_eq_iff (invalid_length e a) (invalid_length e' a') = ground arith
error_eq_iff (invalid_hex_encoding e a) (invalid_hex_encoding e' a') = ground arith
error_eq_iff (io e) (io e') = ground arith
error_eq_iff (varint e) (varint e') = ground arith
error_eq_iff _ _ = ground arith
