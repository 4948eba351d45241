-- ===== src/Transport/Writes.antt =====
-- sf-wt-transport/src/stream.rs: writing. Each poll starts a new `write` of the whole buffer and drops
-- it if it is pending; how far it came by then is given.
use sf_rs.Prelude.{ℕ, List, [], ◌∷◌, ◌++◌, ◌≡◌, refl, sym, ap, ◌∙◌, length, take}
use mathlib.Core.List.{append_assoc}

-- What a poll of the future that `write` returns does: it hands the first `k` bytes over and waits, or
-- all of them and is done, or it fails.
pub data Progress (Io : Type 0) : Type 0 where
  waits_after : (k : ℕ) → Progress Io
  completes : Progress Io
  fails : Io → Progress Io

-- `Poll<io::Result<usize>>`.
pub data WritePoll (Io : Type 0) : Type 0 where
  pending_write : WritePoll Io
  written : ℕ → WritePoll Io
  write_error : Io → WritePoll Io

-- The beginnings that were handed over while the write was pending.
abbrev pub repeated : List ℕ → List ℕ → List ℕ
repeated [] buf = []
repeated (k ∷ ks) buf = take k buf ++ repeated ks buf

module _ {Io : Type 0} where
  -- `poll_write`, with what the stream was handed.
  unfoldable pub poll_write : Progress Io → List ℕ → List ℕ → WritePoll Io × List ℕ
  poll_write (waits_after k) buf wire = (pending_write, wire ++ take k buf)
  poll_write completes buf wire = (written (length buf), wire ++ buf)
  poll_write (fails e) buf wire = (write_error e, wire)

  -- A caller that polls again with the same buffer while the write is pending, `ks` times, and is
  -- then told that it is done.
  abbrev pub write_all : List ℕ → List ℕ → List ℕ → WritePoll Io × List ℕ
  write_all [] buf wire = poll_write completes buf wire
  write_all (k ∷ ks) buf wire = write_all ks buf (poll_write (waits_after k) buf wire).1

  -- What a write that was pending had handed over is handed over again: the stream gets the
  -- beginnings of the buffer for each time, and then the buffer, and the caller is told that the
  -- buffer was written.
  pub write_all-repeated :
      (ks buf wire : List ℕ)
      → write_all ks buf wire ≡ (written (length buf), wire ++ (repeated ks buf ++ buf))
  unfolding poll_write
  write_all-repeated [] buf wire = refl
  write_all-repeated (k ∷ ks) buf wire =
      write_all-repeated ks buf (wire ++ take k buf)
      ∙ ap (λ w. (written (length buf), w))
          (append_assoc wire (take k buf) (repeated ks buf ++ buf)
            ∙ ap (λ w. wire ++ w) (sym (append_assoc (take k buf) (repeated ks buf) buf)))
