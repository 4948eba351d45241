-- ===== src/PeerId/Binary.antt =====
-- sf-peer-id/src/peer_id.rs: the binary form, `from_bytes` and `write`. The varint of the crate
-- unsigned-varint is a parameter; readers and writers are those of `&[u8]`, `&mut [u8]` and `Vec`.
use sf_rs.Prelude.{
  ℕ, ◌+◌, ◌-◌, ◌%◌, ◌≤◌, ◌<◌, List, [], ◌∷◌, ◌++◌, ◌≡◌, ◌≢◌, Option, none, some, if◌then◌else◌, ltb,
  length, take, drop, replicate, codes, Outcome, ok, err, panic, ◌>>=◌, map_err,
}
use sf_rs.PeerId.Errors.{
  Error, ReadError, ErrorKind, unexpected_eof, write_zero, io, invalid_length, from_read_error,
}
use sf_rs.PeerId.Base.{PeerId, visible}

-- `unsigned_varint::encode::u8` and `unsigned_varint::io::read_u8` (on a slice: the value, and what
-- is left of the slice).
pub record Varint : Type 0 where
  pub encode_u8 : ℕ → List ℕ
  pub read_u8 : List ℕ → Outcome ReadError (ℕ × List ℕ)

-- What its documentation promises: reading inverts writing, only minimal encodings are accepted,
-- and a number takes seven bits to the byte.
pub record VarintLaws (v : Varint) : Type 0 where
  pub read_encode :
      (n : ℕ) (rest : List ℕ) → n < 256 → v.read_u8 (v.encode_u8 n ++ rest) ≡ ok (n, rest)
  pub read_returns : (bs : List ℕ) → v.read_u8 bs ≢ panic
  pub encode_short : (n : ℕ) → n < 128 → length (v.encode_u8 n) ≡ 1
  pub encode_long : (n : ℕ) → 128 ≤ n → n < 256 → length (v.encode_u8 n) ≡ 2

abbrev pub io_error : ErrorKind → List ℕ → Error
io_error kind message = io (record { kind = kind; message = message })

-- `Read::read_exact` of a slice: what is read, and what is left.
unfoldable pub read_exact : ℕ → List ℕ → Outcome Error (List ℕ × List ℕ)
read_exact n input =
    if ltb (length input) n
    then err (io_error unexpected_eof (codes "failed to fill whole buffer"))
    else ok (take n input, drop n input)

-- A sink: a `Vec` (no limit), or a `&mut [u8]` with so many places left.
pub record Writer : Type 0 where
  pub written : List ℕ
  pub room : Option ℕ

-- `Write::write_all`.
abbrev store : List ℕ → List ℕ → Option ℕ → Outcome Error Writer
store written bs none = ok (record { written = written ++ bs; room = none })
store written bs (some n) =
    if ltb n (length bs)
    then err (io_error write_zero (codes "failed to write whole buffer"))
    else ok (record { written = written ++ bs; room = some (n - length bs) })

unfoldable pub write_all : Writer → List ℕ → Outcome Error Writer
write_all w bs = store w.written bs w.room

abbrev pub vec : Writer
vec = record { written = []; room = none }

module _ (v : Varint) where
  -- `read_u8`, std flavour.
  unfoldable pub read_size : List ℕ → Outcome Error (ℕ × List ℕ)
  read_size r = map_err from_read_error (v.read_u8 r)

  -- The rest of `read_peer_id`, once the size is known.
  unfoldable pub read_array : ℕ → ℕ → List ℕ → Outcome Error (PeerId × List ℕ)
  unfolding read_exact
  read_array S size r = do
    (bytes, rest) ← read_exact size r
    ok (record { size = size; bytes = bytes ++ replicate (S - size) 0 }, rest)

  -- `read_peer_id`: the identifier, and what is left. `S as u8` is `S % 256`.
  unfoldable pub read_peer_id : ℕ → List ℕ → Outcome Error (PeerId × List ℕ)
  read_peer_id S r = do
    (size, rest) ← read_size r
    if ltb (S % 256) size then err (invalid_length S size) else read_array S size rest

  abbrev pub no_rest : ℕ → ℕ → PeerId → List ℕ → Outcome Error PeerId
  no_rest S len id [] = ok id
  no_rest S len id (b ∷ bs) = err (invalid_length S len)

  -- `from_bytes`.
  unfoldable pub from_bytes : ℕ → List ℕ → Outcome Error PeerId
  from_bytes S input = do (id, rest) ← read_peer_id S input; no_rest S (length input) id rest

  -- `write_peer_id`.
  unfoldable pub write_peer_id : Writer → ℕ → List ℕ → Outcome Error (ℕ × Writer)
  unfolding write_all
  write_peer_id w size bytes =
      let size_buf = v.encode_u8 size in
      let written = length size_buf + length bytes in
      do w1 ← write_all w size_buf; w2 ← write_all w1 bytes; ok (written, w2)

  -- `write`.
  unfoldable pub write : PeerId → Writer → Outcome Error (ℕ × Writer)
  unfolding write_peer_id
  write id w = write_peer_id w id.size (visible id)
