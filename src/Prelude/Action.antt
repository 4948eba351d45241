-- ===== src/Prelude/Action.antt =====
-- Methods that change a state and may fail: what was done before an error stays done.
use sf_rs.Prelude.Outcomes.{Outcome, ok, err, panic}

abbrev pub Action {ℓ κ μ} : Type ℓ → Type κ → Type μ → Type (ℓ ⊔ κ ⊔ μ)
Action S E A = S → S × Outcome E A

module _ {ℓ κ μ ν} {S : Type ℓ} {E : Type κ} {A : Type μ} {B : Type ν} where
  -- What follows a step that has ended.
  abbrev pub continue : S × Outcome E A → (A → Action S E B) → S × Outcome E B
  continue (s, ok a) next = next a s
  continue (s, err e) next = (s, err e)
  continue (s, panic) next = (s, panic)

  infixl 5 ◌>>=◌ ◌>>◌
  abbrev pub ◌>>=◌ : Action S E A → (A → Action S E B) → Action S E B
  ◌>>=◌ first next s = continue (first s) next

  abbrev pub ◌>>◌ : Action S E A → Action S E B → Action S E B
  ◌>>◌ first next s = continue (first s) (λ _. next)

module _ {ℓ κ μ} {S : Type ℓ} {E : Type κ} {A : Type μ} where
  abbrev pub pure : A → Action S E A
  pure a s = (s, ok a)

  abbrev pub raise : E → Action S E A
  raise e s = (s, err e)

  abbrev pub lift : Outcome E A → Action S E A
  lift r s = (s, r)

-- A step that does not panic: its error satisfies `P`, or its value and state satisfy `Q`.
abbrev pub Ends {ℓ κ μ} :
    {S : Type ℓ} {E : Type κ} {A : Type μ}
    → (E → Type 0)
    → (A → S → Type 0)
    → S × Outcome E A
    → Type 0
Ends P Q (s, ok a) = Q a s
Ends P Q (s, err e) = P e
Ends P Q (s, panic) = ⊥

pub continue-Ends {ℓ κ μ ν} :
    {S : Type ℓ} {E : Type κ} {A : Type μ} {B : Type ν} (P : E → Type 0) (R : A → S → Type 0)
    (Q : B → S → Type 0) (first : S × Outcome E A) (next : A → Action S E B)
    → Ends P R first
    → ((a : A) (s : S) → R a s → Ends P Q (next a s))
    → Ends P Q (continue first next)
continue-Ends P R Q (s, ok a) next h then_ = then_ a s h
continue-Ends P R Q (s, err e) next h then_ = h
continue-Ends P R Q (s, panic) next h then_ = absurd h

pub Ends-weaken {ℓ κ μ} :
    {S : Type ℓ} {E : Type κ} {A : Type μ} (P : E → Type 0) (Q R : A → S → Type 0)
    (p : S × Outcome E A)
    → ((a : A) (s : S) → Q a s → R a s)
    → Ends P Q p
    → Ends P R p
Ends-weaken P Q R (s, ok a) then_ h = then_ a s h
Ends-weaken P Q R (s, err e) then_ h = h
Ends-weaken P Q R (s, panic) then_ h = h
