-- ===== src/PeerId/SerdeLaws.antt =====
-- sf-peer-id/src/serde.rs: what is serialized, and that both ways of reading it agree.
use sf_rs.Prelude.{
  ℕ, zero, ◌+◌, ◌-◌, ◌≤◌, ◌<◌, List, [], ◌∷◌, ◌++◌, ◌≡◌, some, map, ap, ap₂, ◌∙◌, arith, length,
  drop, replicate, leb, if◌then◌else◌, Outcome, ok, err, length-append, length-take,
  length-replicate, take-append, codes, le→ltb_false, lt→ltb, le→leb, lt→leb_false, le_or_lt, inl,
  inr, set-append,
}
use native.Mathlib.Nat.{zero-add}
use mathlib.Core.List.{append-nil, append_assoc}
use sf_rs.PeerId.Base.{PeerId, visible, IsValid, canonical}
use sf_rs.PeerId.Errors.{write_zero}
use sf_rs.PeerId.Binary.{Varint, VarintLaws, io_error, write}
use sf_rs.PeerId.Encoding.{encoded, from_bytes-encoded}
use sf_rs.PeerId.Serde.{
  SerdeError, failed_to_serialize, too_many_bytes, new_buffer, serialize, visit_bytes, fill,
  visit_seq,
}

module _ (v : Varint) (laws : VarintLaws v) where
  length-encoded :
      (S : ℕ) (id : PeerId) → S < 128 → IsValid S id → length (encoded v id) ≡ 1 + id.size
  length-encoded S id h valid = omega (
    arith,
    length-append (v.encode_u8 id.size) (visible id),
    laws.encode_short id.size (omega (arith, valid.within)),
    length-take id.size id.bytes (omega (arith, valid.array, valid.within)),
  )

  write_room :
      (id : PeerId) (n : ℕ)
      → length (encoded v id) ≤ n
      → write v id (record { written = []; room = some n })
        ≡ ok (
          length (encoded v id),
          record {
            written = encoded v id;
            room = some (n - length (v.encode_u8 id.size) - length (visible id));
          },
        )
  unfolding write
  write_room id n fits = rw (
    le→ltb_false n (length (v.encode_u8 id.size)) (omega (arith, parts)),
    le→ltb_false (n - length (v.encode_u8 id.size)) (length (visible id)) (omega (arith, parts)),
    parts,
  )
    where
      parts : length (encoded v id) ≡ length (v.encode_u8 id.size) + length (visible id)
      parts = length-append (v.encode_u8 id.size) (visible id)

length-new_buffer : (S : ℕ) → length (new_buffer S) ≡ S + 1
unfolding new_buffer
length-new_buffer S = length-replicate (S + 1) 0

module _ (v : Varint) where
  write_no_room :
      (id : PeerId) (n : ℕ)
      → length (v.encode_u8 id.size) ≤ n
      → n < length (v.encode_u8 id.size) + length (visible id)
      → write v id (record { written = []; room = some n })
        ≡ err (io_error write_zero (codes "failed to write whole buffer"))
  unfolding write
  write_no_room id n fits long = rw (
    le→ltb_false n (length (v.encode_u8 id.size)) fits,
    lt→ltb (n - length (v.encode_u8 id.size)) (length (visible id)) (omega arith),
  )

-- One round of the loop, seen from the next.
fill_next :
    (bs pre tail : List ℕ) (b : ℕ) (r : Outcome SerdeError (List ℕ × ℕ))
    → fill (length (pre ++ b ∷ [])) (map some bs) ((pre ++ b ∷ []) ++ tail) ≡ r
    → fill (length pre + 1) (map some bs) (pre ++ b ∷ tail) ≡ r
fill_next bs pre tail b r h = rw (length-append, append_assoc) at h

fill-append :
    (bs pre tail : List ℕ)
    → length bs ≤ length tail
    → fill (length pre) (map some bs) (pre ++ tail)
      ≡ ok (pre ++ (bs ++ drop (length bs) tail), length pre + length bs)
unfolding fill
fill-append [] pre tail fits = ap (λ n. ok (pre ++ tail, n)) (omega arith)
fill-append (b ∷ bs) pre [] fits = absurd (omega arith)
fill-append (b ∷ bs) pre (x ∷ tail) fits =
    rw
      (
        lt→leb_false (length (pre ++ x ∷ tail)) (length pre)
            (omega (arith, length-append pre (x ∷ tail))),
        set-append pre x b tail,
      )
      (fill_next bs pre tail b _ (fill-append bs (pre ++ b ∷ []) tail (omega arith))
        ∙ ap₂ (λ xs n. ok (xs, n)) (append_assoc pre (b ∷ []) _)
            (omega (arith, length-append pre (b ∷ []))))

fill_overflow :
    (bs pre tail : List ℕ)
    → length tail < length bs
    → fill (length pre) (map some bs) (pre ++ tail) ≡ err too_many_bytes
unfolding fill
fill_overflow [] pre tail long = absurd (omega arith)
fill_overflow (b ∷ bs) pre [] long =
    rw (append-nil pre, le→leb (length pre) (length pre) (omega arith))
fill_overflow (b ∷ bs) pre (x ∷ tail) long =
    rw
      (
        lt→leb_false (length (pre ++ x ∷ tail)) (length pre)
            (omega (arith, length-append pre (x ∷ tail))),
        set-append pre x b tail,
      )
      (fill_next bs pre tail b _ (fill_overflow bs (pre ++ b ∷ []) tail (omega arith)))

-- Reading a sequence of bytes is reading the byte string, except that more than `S + 1` of them are
-- refused with an error of their own.
pub visit_seq-visit_bytes :
    (v : Varint) (S : ℕ) (bs : List ℕ)
    → visit_seq v S (map some bs)
      ≡ (if leb (length bs) (S + 1) then visit_bytes v S bs else err too_many_bytes)
unfolding visit_seq new_buffer
visit_seq-visit_bytes v S bs = elim (le_or_lt (length bs) (S + 1)) [
  | inl fits ↦ rw (
    le→leb (length bs) (S + 1) fits,
    fill-append bs [] (replicate (S + 1) 0) (omega (arith, length-replicate (S + 1) zero)),
    zero-add,
    take-append,
  )
  | inr long ↦ rw (
    lt→leb_false (length bs) (S + 1) long,
    fill_overflow bs [] (replicate (S + 1) 0) (omega (arith, length-replicate (S + 1) zero)),
  )
]

module _ (v : Varint) (laws : VarintLaws v) where
  -- At a capacity below 128, serializing a well-formed identifier succeeds, and gives its binary
  -- form, which either visitor reads back as an equal identifier.
  pub serialize_round_trip :
      (S : ℕ) (id : PeerId)
      → S < 128
      → IsValid S id
      → (bs : List ℕ) × (serialize v S id ≡ ok bs)
        × (visit_bytes v S bs ≡ ok (canonical S id))
        × (visit_seq v S (map some bs) ≡ ok (canonical S id))
  unfolding serialize visit_bytes
  serialize_round_trip S id h valid = (
    encoded v id,
    serialized,
    visited,
    visit_seq-visit_bytes v S (encoded v id)
        ∙ rw (le→leb (length (encoded v id)) (S + 1) (omega (arith, room)), visited),
  )
    where
      room : length (encoded v id) ≤ S + 1
      room = omega (arith, length-encoded v laws S id h valid, valid.within)

      serialized : serialize v S id ≡ ok (encoded v id)
      serialized = rw (
        write_room v laws id (length (new_buffer S)) (omega (arith, room, length-new_buffer S)),
        take-append,
      )

      visited : visit_bytes v S (encoded v id) ≡ ok (canonical S id)
      visited = rw (from_bytes-encoded v laws S id (omega arith) valid)

  -- From a capacity of 128 on, an identifier that fills its array cannot be serialized: its size
  -- takes two bytes, and the buffer has room for one.
  pub serialize_full_fails :
      (S : ℕ) (id : PeerId)
      → 128 ≤ S
      → S < 256
      → IsValid S id
      → id.size ≡ S
      → serialize v S id ≡ err failed_to_serialize
  unfolding serialize new_buffer
  serialize_full_fails S id lo hi valid full = rw (
      write_no_room v id (length (replicate (S + 1) zero)) (omega (arith, sized, buffer))
        (omega (arith, whole, buffer)))
    where
      buffer : length (replicate (S + 1) zero) ≡ S + 1
      buffer = length-replicate (S + 1) zero

      sized : length (v.encode_u8 id.size) ≡ 2
      sized = laws.encode_long id.size (omega (arith, full)) valid.size_byte

      whole : length (visible id) ≡ S
      whole = length-take id.size id.bytes (omega (arith, valid.array, valid.within)) ∙ full
