-- ===== src/PeerId/NoStd.antt =====
-- sf-peer-id/src/peer_id.rs: `read_u8` without the standard library, which reads a varint byte by byte. The
-- decoding of the crate unsigned-varint is a parameter; the reader is a slice.
use sf_rs.Prelude.{
  ℕ, zero, suc, ◌≤◌, ◌<◌, List, [], ◌∷◌, ◌++◌, Bool, ◌≡◌, refl, sym, ap, ◌∙◌, if◌then◌else◌, ltb,
  lt→ltb, le→ltb_false, le_or_lt, inl, inr, set, replicate, Outcome, ok, err, map_err, ◌>>=◌,
}
use sf_rs.PeerId.Errors.{Error, DecodeError, insufficient, overflow, varint}
use sf_rs.PeerId.Binary.{Varint, VarintLaws, read_size}

-- `decode::is_last` and `decode::u8`: the number, and what is left of the buffer.
pub record Decoder : Type 0 where
  pub is_last : ℕ → Bool
  pub decode_u8 : List ℕ → Outcome DecodeError (ℕ × List ℕ)

-- What is documented of them: the last byte of a varint is below 128 and the others are not, and
-- decoding inverts encoding and leaves what follows.
pub record DecoderLaws (v : Varint) (d : Decoder) : Type 0 where
  pub last_below : (b : ℕ) → d.is_last b ≡ ltb b 128
  pub encode_one : (n : ℕ) → n < 128 → v.encode_u8 n ≡ n ∷ []
  pub encode_two :
      (n : ℕ)
      → 128 ≤ n
      → n < 256
      → (a : ℕ) × (b : ℕ) × (v.encode_u8 n ≡ a ∷ b ∷ []) × (128 ≤ a) × (b < 128)
  pub decode_encode :
      (n : ℕ) (rest : List ℕ) → n < 256 → d.decode_u8 (v.encode_u8 n ++ rest) ≡ ok (n, rest)

module _ (d : Decoder) where
  abbrev decoded : List ℕ → Outcome DecodeError (ℕ × List ℕ) → Outcome Error (ℕ × List ℕ)
  decoded rest r = map_err varint r >>= λ n. ok (n.0, rest)

  -- The loop over the places of `size_buf`, with `left` of them to go.
  unfoldable pub read_places : ℕ → ℕ → List ℕ → List ℕ → Outcome Error (ℕ × List ℕ)
  read_places zero i size_buf r = err (varint overflow)
  read_places (suc left) i size_buf [] = err (varint insufficient)
  read_places (suc left) i size_buf (b ∷ r) =
      let filled = set size_buf i b in
      let later = read_places left (suc i) filled r in
      if d.is_last b then decoded r (d.decode_u8 filled) else later

  -- `read_u8`; `u8_buffer` has two places.
  unfoldable pub read_u8_no_std : List ℕ → Outcome Error (ℕ × List ℕ)
  unfolding read_places
  read_u8_no_std r = read_places 2 0 (replicate 2 0) r

module _ (v : Varint) (vlaws : VarintLaws v) (d : Decoder) (laws : DecoderLaws v d) where
  -- Without the standard library a size is read from its encoding as with it: the number, and what
  -- follows the encoding left in the reader.
  pub read_u8_no_std-encode :
      (n : ℕ) (rest : List ℕ)
      → n < 256
      → (read_u8_no_std d (v.encode_u8 n ++ rest) ≡ ok (n, rest))
        × (read_size v (v.encode_u8 n ++ rest) ≡ ok (n, rest))
  unfolding read_u8_no_std read_places read_size
  read_u8_no_std-encode n rest h = (
    elim (le_or_lt 128 n) [
      | inr short ↦
          let one = laws.encode_one n short in
          let back : d.decode_u8 (n ∷ 0 ∷ []) ≡ ok (n, 0 ∷ []) =
            sym (ap (λ bs. d.decode_u8 (bs ++ 0 ∷ [])) one) ∙ laws.decode_encode n (0 ∷ []) h in
          rw (one, laws.last_below n, lt→ltb n 128 short, back) refl
      | inl long ↦
          let (a, b, two, above, below) = laws.encode_two n long h in
          let back : d.decode_u8 (a ∷ b ∷ []) ≡ ok (n, []) =
            sym (ap (λ bs. d.decode_u8 (bs ++ [])) two) ∙ laws.decode_encode n [] h in
          rw
            (
              two,
              laws.last_below a,
              le→ltb_false a 128 above,
              laws.last_below b,
              lt→ltb b 128 below,
              back,
            )
            refl
    ],
    rw (vlaws.read_encode n rest h) refl,
  )
