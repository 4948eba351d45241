-- ===== src/PeerId/Encoding.antt =====
-- sf-peer-id/src/peer_id.rs: `from_bytes` and `write` invert each other.
use sf_rs.Prelude.{
  ℕ, ◌-◌, ◌%◌, ◌≤◌, ◌<◌, List, [], ◌++◌, ◌≡◌, none, refl, sym, ap, arith, length, replicate, ok,
  length-append, length-take, take-append, drop-append, le→ltb_false,
}
use mathlib.Core.List.{append-nil}
use sf_rs.PeerId.Base.{PeerId, visible, IsValid, canonical}
use sf_rs.PeerId.Binary.{
  Varint, VarintLaws, Writer, vec, read_exact, read_size, read_array, read_peer_id, from_bytes,
  write,
}

-- The binary form.
abbrev pub encoded : Varint → PeerId → List ℕ
encoded v id = v.encode_u8 id.size ++ visible id

read_exact_ok :
    (n : ℕ) (bs rest : List ℕ) → length bs ≡ n → read_exact n (bs ++ rest) ≡ ok (bs, rest)
unfolding read_exact
read_exact_ok n bs rest e = rw (
  ← e,
  le→ltb_false (length (bs ++ rest)) (length bs) (omega (arith, length-append bs rest)),
  take-append bs rest,
  drop-append bs rest,
)

module _ (v : Varint) where
  -- `write` to a vector appends the encoded form and returns its length.
  pub write-vec :
      (id : PeerId)
      → write v id vec ≡ ok (length (encoded v id), record { written = encoded v id; room = none })
  unfolding write
  write-vec id =
      ap (λ n. ok (n, record { written = encoded v id; room = none }))
        (sym (length-append (v.encode_u8 id.size) (visible id)))

-- The identifier of `n` bytes in an array of `S`.
abbrev stored : ℕ → List ℕ → PeerId
stored S bs = record { size = length bs; bytes = bs ++ replicate (S - length bs) 0 }

module _ (v : Varint) (laws : VarintLaws v) where
  read_peer_id-encode :
      (S : ℕ) (bs rest : List ℕ)
      → length bs ≤ S
      → S < 256
      → read_peer_id v S (v.encode_u8 (length bs) ++ (bs ++ rest)) ≡ ok (stored S bs, rest)
  unfolding read_peer_id read_size read_array
  read_peer_id-encode S bs rest fits h = rw (
    laws.read_encode (length bs) (bs ++ rest) (omega arith),
    le→ltb_false (S % 256) (length bs) (omega arith),
    read_exact_ok (length bs) bs rest refl,
  )

  read_peer_id-encoded :
      (S : ℕ) (id : PeerId)
      → S < 256
      → IsValid S id
      → read_peer_id v S (encoded v id) ≡ ok (canonical S id, [])
  unfolding canonical
  read_peer_id-encoded S id h valid =
      rw (append-nil, shown) at
        (read_peer_id-encode S (visible id) [] (omega (arith, shown, valid.within)) h)
    where
      shown : length (visible id) ≡ id.size
      shown = length-take id.size id.bytes (omega (arith, valid.array, valid.within))

  pub from_bytes-encoded :
      (S : ℕ) (id : PeerId)
      → S < 256
      → IsValid S id
      → from_bytes v S (encoded v id) ≡ ok (canonical S id)
  unfolding from_bytes
  from_bytes-encoded S id h valid = rw (read_peer_id-encoded S id h valid)

  -- What `write` puts into a vector, `from_bytes` reads back as an equal identifier, the bytes
  -- behind its size cleared; and neither fails.
  pub from_bytes-write :
      (S : ℕ) (id : PeerId)
      → S < 256
      → IsValid S id
      → (n : ℕ) × (w : Writer) × (write v id vec ≡ ok (n, w))
        × (from_bytes v S w.written ≡ ok (canonical S id))
  from_bytes-write S id h valid = (
    length (encoded v id),
    record { written = encoded v id; room = none },
    write-vec v id,
    from_bytes-encoded S id h valid,
  )
