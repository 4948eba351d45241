-- ===== src/Wasm/Notify.antt =====
-- sf-wasm/src/client.rs, `notify_event`, over the table of callback.rs. The table stays borrowed while
-- the callbacks are called.
use sf_rs.Prelude.{ℕ, List, [], ◌∷◌, ◌++◌, Bool, true, false, ◌≡◌, refl, sym, ap, ◌∙◌}
use mathlib.Core.List.{append-nil, append_assoc}
use sf_rs.Prelude.Maps.{MapOps}
use sf_rs.Wasm.Callbacks.{JsCallbackManager}

-- What `call1` gives of a callback: a return, or an exception that is caught and logged. A callback
-- that adds or removes a callback borrows the borrowed table and panics; where its trap reaches
-- JavaScript it is an exception as well.
pub data Reaction : Type 0 where
  returns throws : Reaction

abbrev pub values : {F : Type 0} → List (ℕ × F) → List F
values [] = []
values ((id, f) ∷ fs) = f ∷ values fs

module _ {F M : Type 0} (ops : MapOps ℕ F M) (call : F → Reaction) where
  -- The loop over the callbacks. `serialized` says whether the event becomes a JavaScript value; the
  -- result has the callbacks that were called and those whose exception was logged.
  abbrev reacted : F → Reaction → List F × List F → List F × List F
  reacted f returns (called, failed) = (called ++ f ∷ [], failed)
  reacted f throws (called, failed) = (called ++ f ∷ [], failed ++ f ∷ [])

  unfoldable pub invoke_all : Bool → List F × List F → List F → List F × List F
  invoke_all serialized done [] = done
  invoke_all false done (f ∷ fs) = invoke_all false done fs
  invoke_all true done (f ∷ fs) = invoke_all true (reacted f (call f) done) fs

  unfoldable pub notify_event : Bool → JsCallbackManager M → List F × List F
  unfolding invoke_all
  notify_event serialized m = invoke_all serialized ([], []) (values (ops.entries m.callbacks))

  reacted-called :
      (f : F) (r : Reaction) (done : List F × List F) → (reacted f r done).0 ≡ done.0 ++ f ∷ []
  reacted-called f returns done = refl
  reacted-called f throws done = refl

  invoke_all-called :
      (done : List F × List F) (fs : List F) → (invoke_all true done fs).0 ≡ done.0 ++ fs
  unfolding invoke_all
  invoke_all-called done [] = sym (append-nil done.0)
  invoke_all-called done (f ∷ fs) =
      invoke_all-called (reacted f (call f) done) fs
      ∙ ap (λ l. l ++ fs) (reacted-called f (call f) done)
      ∙ append_assoc done.0 (f ∷ []) fs

  -- An event that becomes a JavaScript value reaches each callback of the table once, in the order of
  -- the table, whether or not some throw.
  pub notify_event_all :
      (m : JsCallbackManager M) → (notify_event true m).0 ≡ values (ops.entries m.callbacks)
  unfolding notify_event
  notify_event_all m = invoke_all-called ([], []) (values (ops.entries m.callbacks))
