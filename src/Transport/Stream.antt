-- ===== src/Transport/Stream.antt =====
-- sf-wt-transport/src/stream.rs: reads of a stream through its buffer.
use sf_rs.Prelude.{
  ℕ, zero, suc, ◌≤◌, ◌<◌, List, [], ◌∷◌, ◌++◌, ◌≡◌, ◌⊎◌, inl, inr, refl, sym, ap, ◌∙◌, arith,
  if◌then◌else◌, ltb, Option, none, some, length, take, drop, take-append-drop, length-take,
  le_or_lt, lt→ltb, le→ltb_false, Outcome, ok, panic,
}
use mathlib.Core.List.{append-nil}

-- What `recv_stream.read(8192)` gives: nothing yet, a chunk, the end, or an error.
pub data Arrival (Err : Type 0) : Type 0 where
  not_yet : Arrival Err
  chunk : List ℕ → Arrival Err
  end_of_stream : Arrival Err
  failed : Err → Arrival Err

-- `Poll<io::Result<usize>>`, where a ready read has its bytes in place of their number.
pub data Read (Err : Type 0) : Type 0 where
  waiting : Read Err
  done : List ℕ → Read Err
  read_error : Err → Read Err

abbrev pub min : ℕ → ℕ → ℕ
min m n = if ltb m n then m else n

-- The end of `poll_read`, with `len` bytes of `bytes` copied: the rest is kept.
unfoldable pub keep_rest : {Err : Type 0} → ℕ → List ℕ → Option (List ℕ) × Read Err
keep_rest len bytes =
    if ltb len (length bytes)
    then (some (drop len bytes), done (take len bytes))
    else (none, done (take len bytes))

-- `poll_read` into a buffer of `len` bytes: the stream's `read_buf`, and the result. Slicing the
-- buffered bytes panics where they are fewer than `len`.
abbrev pub from_stream : {Err : Type 0} → ℕ → Arrival Err → Option (List ℕ) × Read Err
unfolding keep_rest
from_stream len not_yet = (none, waiting)
from_stream len end_of_stream = (none, done [])
from_stream len (failed e) = (none, read_error e)
from_stream len (chunk bytes) = keep_rest (min len (length bytes)) bytes

unfoldable pub poll_read :
    {Err : Type 0}
    → ℕ
    → Option (List ℕ)
    → Arrival Err
    → Outcome (Unit {0}) (Option (List ℕ) × Read Err)
unfolding keep_rest
poll_read len (some bytes) arrival =
    if ltb (length bytes) len then panic else ok (keep_rest len bytes)
poll_read len none arrival = ok (from_stream len arrival)

-- The bytes that a stream has received and not yet delivered.
abbrev pub buffered : Option (List ℕ) → List ℕ
buffered none = []
buffered (some bytes) = bytes

min_le : (m n : ℕ) → m ≤ n → min m n ≡ m
min_le m n h = ground arith

min-below : (m n : ℕ) → min m n ≤ n
min-below m n = ground arith

take_whole {ℓ} : {A : Type ℓ} (n : ℕ) (xs : List A) → length xs ≤ n → take n xs ≡ xs
take_whole zero [] h = refl
take_whole zero (x ∷ xs) h = absurd (omega (arith, h))
take_whole (suc n) [] h = refl
take_whole (suc n) (x ∷ xs) h = ap (λ ys. x ∷ ys) (take_whole n xs (omega (arith, h)))

keep_rest_lem :
    {Err : Type 0} (len : ℕ) (bytes : List ℕ)
    → len ≤ length bytes
    → (buf' : Option (List ℕ)) × (out : List ℕ) × (keep_rest {Err = Err} len bytes
        ≡ (buf', done out))
      × (out ++ buffered buf' ≡ bytes)
      × (length out ≡ len)
unfolding keep_rest
keep_rest_lem len bytes fits = elim (le_or_lt (length bytes) len) [
  | inl all_ ↦ (
    none,
    take len bytes,
    rw (le→ltb_false len (length bytes) all_) refl,
    append-nil (take len bytes) ∙ take_whole len bytes all_,
    length-take len bytes fits,
  )
  | inr more ↦ (
    some (drop len bytes),
    take len bytes,
    rw (lt→ltb len (length bytes) more) refl,
    take-append-drop len bytes,
    length-take len bytes fits,
  )
]

-- A read hands out the bytes in their order and loses none: what it delivers and what it keeps are
-- what was buffered, or else the chunk that arrived. It delivers as much as the caller's buffer and
-- these bytes allow, and panics exactly where bytes are buffered but fewer than the caller's buffer
-- has room for. Without bytes it waits, ends with a read of none, or passes on the stream's error, as
-- the stream does.
pub poll_read_outcomes :
    {Err : Type 0} (len : ℕ) (buf : Option (List ℕ)) (arrival : Arrival Err)
    → ((bytes : List ℕ) × (buf ≡ some bytes)
        × (length bytes < len)
        × (poll_read len buf arrival ≡ panic))
      ⊎ ((bytes : List ℕ) × ((buf ≡ some bytes) ⊎ ((buf ≡ none) × (arrival ≡ chunk bytes)))
          × (buf' : Option (List ℕ)) × (out : List ℕ) × (poll_read len buf arrival
              ≡ ok (buf', done out))
          × (out ++ buffered buf' ≡ bytes)
          × (length out ≡ min len (length bytes)))
      ⊎ ((buf ≡ none)
          × (((arrival ≡ not_yet) × (poll_read len buf arrival ≡ ok (none, waiting)))
              ⊎ ((arrival ≡ end_of_stream) × (poll_read len buf arrival ≡ ok (none, done [])))
              ⊎ ((e : Err) × (arrival ≡ failed e)
                  × (poll_read len buf arrival ≡ ok (none, read_error e)))))
unfolding poll_read
poll_read_outcomes {Err} len (some bytes) arrival = elim (le_or_lt len (length bytes)) [
  | inr short ↦ inl (bytes, refl, short, rw (lt→ltb (length bytes) len short) refl)
  | inl fits ↦
      let (buf', out, e, whole, size) = keep_rest_lem {Err = Err} len bytes fits in
      inr (
        inl (
          bytes,
          inl refl,
          buf',
          out,
          rw (le→ltb_false (length bytes) len fits, e) refl,
          whole,
          size ∙ sym (min_le len (length bytes) fits),
        ))
]
poll_read_outcomes {Err} len none (chunk bytes) =
    let (buf', out, e, whole, size) =
      keep_rest_lem {Err = Err} (min len (length bytes)) bytes (min-below len (length bytes)) in
    inr (inl (bytes, inr (refl, refl), buf', out, rw e refl, whole, size))
poll_read_outcomes len none not_yet = inr (inr (refl, inl (refl, refl)))
poll_read_outcomes len none end_of_stream = inr (inr (refl, inr (inl (refl, refl))))
poll_read_outcomes len none (failed x) = inr (inr (refl, inr (inr (x, refl, refl))))
