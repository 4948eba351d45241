-- ===== src/PeerId/Serde.antt =====
-- sf-peer-id/src/serde.rs: an identifier as a byte string of serde.
use sf_rs.Prelude.{
  ℕ, ◌+◌, ◌-◌, List, [], ◌∷◌, ◌++◌, Option, none, some, if◌then◌else◌, leb, length, set, take,
  replicate, Outcome, ok, err, ◌>>=◌, map_err,
}
use sf_rs.PeerId.Base.{PeerId}
use sf_rs.PeerId.Binary.{Varint, write, from_bytes}

-- The `custom` messages, and an error of the sequence itself.
pub data SerdeError : Type 0 where
  failed_to_serialize failed_to_deserialize too_many_bytes bad_element : SerdeError

-- `PeerIDBuffer`: the size and then the array, `S + 1` zero bytes (`repr(C, packed)`).
unfoldable pub new_buffer : ℕ → List ℕ
new_buffer S = replicate (S + 1) 0

-- What a slice holds once a writer over it has written.
abbrev pub filled : List ℕ → List ℕ → List ℕ
filled buffer written = written ++ replicate (length buffer - length written) 0

-- The `while let` loop of `visit_seq`; an element that fails to deserialize is `none`.
unfoldable pub fill : ℕ → List (Option ℕ) → List ℕ → Outcome SerdeError (List ℕ × ℕ)
fill i [] bytes = ok (bytes, i)
fill i (none ∷ seq) bytes = err bad_element
fill i (some byte ∷ seq) bytes =
    let rest = fill (i + 1) seq (set bytes i byte) in
    if leb (length bytes) i then err too_many_bytes else rest

module _ (v : Varint) where
  -- `serialize`: the bytes handed to `serialize_bytes`.
  unfoldable pub serialize : ℕ → PeerId → Outcome SerdeError (List ℕ)
  serialize S id =
      let buffer = new_buffer S in
      do
        (written, w) ←
            map_err (λ _. failed_to_serialize)
              (write v id (record { written = []; room = some (length buffer) }))
        ok (take written (filled buffer w.written))

  -- `visit_bytes`.
  unfoldable pub visit_bytes : ℕ → List ℕ → Outcome SerdeError PeerId
  visit_bytes S bs = map_err (λ _. failed_to_deserialize) (from_bytes v S bs)

  -- `visit_seq`.
  unfoldable pub visit_seq : ℕ → List (Option ℕ) → Outcome SerdeError PeerId
  visit_seq S seq = do (bytes, i) ← fill 0 seq (new_buffer S); visit_bytes S (take i bytes)
