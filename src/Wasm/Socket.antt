-- ===== src/Wasm/Socket.antt =====
-- sf-wasm/src/websocket.rs: the tasks that write to the socket and read from it.
use sf_rs.Prelude.{ℕ, List, [], ◌∷◌, ◌++◌, Bool, true, false, Option, if◌then◌else◌}
use sf_rs.Prelude.Maps.{MapOps}
use sf_rs.PeerId.Base.{PeerId}
use sf_rs.Protocol.{PeerRequest}
use sf_rs.Wasm.Client.{Client, PeerOps, handle_incoming_text}

-- `websocket_writer_loop`: `accepts` says whether the socket takes a message after those that it took.
-- The second part is what is left in the receiver when the task ends, `true` if it still waits.
unfoldable pub writer_loop :
    (List (List ℕ) → List ℕ → Bool) → List (List ℕ) → List (List ℕ) → List (List ℕ) × Bool
writer_loop accepts [] written = (written, true)
writer_loop accepts (msg ∷ queue) written =
    let rest = writer_loop accepts queue (written ++ msg ∷ []) in
    if accepts written msg then rest else (written, false)

-- What `read.next()` gives.
pub data Incoming : Type 0 where
  text bytes : List ℕ → Incoming
  read_error : Incoming

module _ {P Js M W : Type 0} (ops : MapOps PeerId P M) (peer : PeerOps P Js W)
    (parse : List ℕ → Option PeerRequest) where
  -- `websocket_reader_loop`: the client, and whether the task still waits.
  unfoldable pub reader_loop : List Incoming → Client M W → Client M W × Bool
  reader_loop [] c = (c, true)
  reader_loop (text raw ∷ rest) c = reader_loop rest (handle_incoming_text ops peer parse c raw)
  reader_loop (bytes raw ∷ rest) c = reader_loop rest c
  reader_loop (read_error ∷ rest) c = (c, false)
