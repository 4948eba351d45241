-- ===== src/Wasm/Callbacks.antt =====
-- sf-wasm/src/callback.rs: the table of JavaScript callbacks. A `usize` of the browser has 32 bits.
use sf_rs.Prelude.{
  ℕ, ◌+◌, ◌%◌, ◌^◌, ◌<◌, true, false, ◌≡◌, ◌≢◌, refl, sym, ◌∙◌, arith, ◌==◌, ==_refl, none, some,
  is_some, Option-cases, Bool-cases, inl, inr, ==_iff,
}
use sf_rs.Prelude.Maps.{MapOps, MapLaws}

pub record JsCallbackManager (M : Type 0) : Type 0 where
  pub callbacks : M
  pub next_id : ℕ

module _ {F M : Type 0} (ops : MapOps ℕ F M) where
  -- `new`.
  unfoldable pub new_manager : JsCallbackManager M
  new_manager = record { callbacks = ops.empty; next_id = 0 }

  -- `add`.
  unfoldable pub add : JsCallbackManager M → F → JsCallbackManager M × ℕ
  add m callback = (
    record {
      callbacks = ops.insert m.next_id callback m.callbacks;
      next_id = (m.next_id + 1) % 2 ^ 32;
    },
    m.next_id,
  )

  -- `remove`.
  unfoldable pub remove : JsCallbackManager M → ℕ → JsCallbackManager M
  remove m id = record m { callbacks = (ops.remove id m.callbacks).1 }

  -- The numbers in use are below the next one.
  abbrev pub InOrder : JsCallbackManager M → Type 0
  InOrder m = (id : ℕ) → is_some (ops.get id m.callbacks) ≡ true → id < m.next_id

module _ {F M : Type 0} (ops : MapOps ℕ F M) (laws : MapLaws ◌==◌ ops) where
  -- Until the counter wraps, `add` gives a number that is not in use, under which the callback is
  -- found; it leaves the callbacks of other numbers alone, and the numbers in use below the next one.
  pub add_fresh :
      (m : JsCallbackManager M) (callback : F)
      → InOrder ops m
      → m.next_id + 1 < 2 ^ 32
      → let (m', id) = add ops m callback in
        (ops.get id m.callbacks ≡ none)
        × (ops.get id m'.callbacks ≡ some callback)
        × ((other : ℕ) → other ≢ id → ops.get other m'.callbacks ≡ ops.get other m.callbacks)
        × InOrder ops m'
  unfolding add
  add_fresh m callback order room = (
    elim (Option-cases (ops.get m.next_id m.callbacks)) [
      | inl e ↦ e
      | inr (f, e) ↦ absurd (omega (arith, order m.next_id (rw e refl)))
    ],
    laws.get-insert m.next_id m.next_id callback m.callbacks ∙ rw (==_refl m.next_id) refl,
    (λ other n. laws.get-insert other m.next_id callback m.callbacks ∙ rw (unlike other n) refl),
    λ id used. elim (Bool-cases (m.next_id == id)) [
      | inl e ↦ let same : m.next_id ≡ id = (==_iff m.next_id id).0 e in omega (arith, same, room)
      | inr e ↦
          let before =
            order id (rw (laws.get-insert id m.next_id callback m.callbacks, e) at used) in
          omega (arith, before, room)
    ],
  )
    where
      unlike : (other : ℕ) → other ≢ m.next_id → (m.next_id == other) ≡ false
      unlike other n = elim (Bool-cases (m.next_id == other)) [
        | inl e ↦ absurd (n (sym ((==_iff m.next_id other).0 e)))
        | inr e ↦ e
      ]

  -- `remove` frees the number and no other one, whether or not it is in use.
  pub remove_frees :
      (m : JsCallbackManager M) (id : ℕ)
      → InOrder ops m
      → (ops.get id (remove ops m id).callbacks ≡ none)
        × ((other : ℕ)
            → (id == other) ≡ false
            → ops.get other (remove ops m id).callbacks ≡ ops.get other m.callbacks)
        × InOrder ops (remove ops m id)
  unfolding remove
  remove_frees m id order = (
    laws.get-remove id id m.callbacks ∙ rw (==_refl id) refl,
    (λ other n. laws.get-remove other id m.callbacks ∙ rw n refl),
    λ other used. elim (Bool-cases (id == other)) [
      | inl e ↦ absurd (ground (arith, laws.get-remove other id m.callbacks, e, used))
      | inr e ↦ order other (rw (laws.get-remove other id m.callbacks, e) at used)
    ],
  )
