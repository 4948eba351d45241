-- ===== src/Webrtc/Events.antt =====
-- sf-webrtc/src/data_channel/futures.rs and peer_connection/futures.rs: what `make_event_stream!`
-- makes. The browser calls the listener with an event; the stream is polled for the items.
use sf_rs.Prelude.{ℕ, zero, suc, List, [], ◌∷◌, ◌++◌, ◌≡◌, refl, Option, none, some, length}
use mathlib.Core.List.{append-nil, append_assoc}

-- `Poll<Option<Item>>`.
pub data Polled {ℓ} (A : Type ℓ) : Type ℓ where
  pending : Polled A
  ready : Option A → Polled A

module _ {Event Item S : Type 0} (conversion_logic : Event → S → S × Option Item) where
  -- `let _ = sender.unbounded_send(item)`: the receiver lives as long as the listener does.
  abbrev pub pushed : List Item → Option Item → List Item
  pushed queue (some item) = queue ++ item ∷ []
  pushed queue none = queue

  -- The listener: an event that is not of the expected class is `none`, and only logged. `S` is what
  -- the conversion writes to beside its result, the counters.
  unfoldable pub on_event : Option Event → S × List Item → S × List Item
  on_event none (s, queue) = (s, queue)
  on_event (some event) (s, queue) =
      let (s', item) = conversion_logic event s in (s', pushed queue item)

  unfoldable pub on_events : List (Option Event) → S × List Item → S × List Item
  on_events [] r = r
  on_events (e ∷ es) r = on_events es (on_event e r)

  -- What the events convert to, without the stream.
  abbrev shown : Option Item → List Item
  shown none = []
  shown (some item) = item ∷ []

  unfoldable pub converted : List (Option Event) → S → S × List Item
  converted [] s = (s, [])
  converted (none ∷ es) s = converted es s
  converted (some e ∷ es) s =
      let (s', item) = conversion_logic e s in
      let (s'', items) = converted es s' in (s'', shown item ++ items)

  pushed-shown : (queue : List Item) (item : Option Item) → pushed queue item ≡ queue ++ shown item
  pushed-shown queue none = rw (append-nil queue) refl
  pushed-shown queue (some item) = refl

  pub on_events-converted :
      (es : List (Option Event)) (s : S) (queue : List Item)
      → on_events es (s, queue) ≡ ((converted es s).0, queue ++ (converted es s).1)
  unfolding on_events on_event converted
  on_events-converted [] s queue = rw (append-nil queue) refl
  on_events-converted (none ∷ es) s queue = on_events-converted es s queue
  on_events-converted (some e ∷ es) s queue =
      let (s', item) = conversion_logic e s in
      rw (
        on_events-converted es s' (pushed queue item),
        pushed-shown queue item,
        append_assoc queue (shown item) (converted es s').1,
      )

-- `poll_next`: the sender lives in the listener, which lives in the stream, so the stream does not
-- end by itself.
unfoldable pub poll_next {ℓ} : {A : Type ℓ} → List A → Polled A × List A
poll_next [] = (pending, [])
poll_next (item ∷ queue) = (ready (some item), queue)

-- Polling for as long as something is ready, at most `fuel` times: the items, and what is left.
unfoldable pub drain {ℓ} : {A : Type ℓ} → ℕ → List A → List A × List A
drain zero queue = ([], queue)
drain (suc fuel) [] = ([], [])
drain (suc fuel) (item ∷ queue) = let (items, rest) = drain fuel queue in (item ∷ items, rest)

pub drain_all {ℓ} : {A : Type ℓ} (queue : List A) → drain (length queue) queue ≡ (queue, [])
unfolding drain
drain_all [] = refl
drain_all (item ∷ queue) = rw (drain_all queue) refl

-- Whatever events come, polling the stream for as long as something is ready gives exactly the items
-- that they convert to, in their order, after what was waiting; then it waits for more.
pub poll_next-on_events :
    {Event Item S : Type 0} (conversion_logic : Event → S → S × Option Item)
    (es : List (Option Event)) (s : S) (queue : List Item)
    → let (s', queue') = on_events conversion_logic es (s, queue) in
      let (expected, items) = converted conversion_logic es s in
      (s' ≡ expected)
      × (drain (length queue') queue' ≡ (queue ++ items, []))
      × (poll_next (drain (length queue') queue').1 ≡ (pending, []))
unfolding poll_next
poll_next-on_events {Item = Item} conversion_logic es s queue =
    let all : List Item = queue ++ (converted conversion_logic es s).1 in
    rw (on_events-converted conversion_logic es s queue, drain_all all) (refl, refl, refl)
