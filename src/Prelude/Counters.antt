-- ===== src/Prelude/Counters.antt =====
-- Counters kept under a label, and stores of numbered cells, as functions.
use Prim.Native.Nat.{ℕ, ◌+◌}
use mathlib.Core.Path.{◌≡◌}
use mathlib.Core.Logic.{◌≢◌}
use mathlib.Core.List.{List}
use native.Mathlib.Omega.{arith}
use sf_rs.Prelude.Tests.{if◌then◌else◌, ◌==◌, ==_refl}
use sf_rs.Prelude.Bytes.{bytes_eq, bytes_eq_refl}

abbrev pub Totals : Type 0
Totals = List ℕ → ℕ

-- One more under the label `k`.
unfoldable pub bump : List ℕ → Totals → Totals
bump k t j = if bytes_eq k j then t j + 1 else t j

pub bump_self : (k : List ℕ) (t : Totals) → bump k t k ≡ t k + 1
unfolding bump
bump_self k t = rw (bytes_eq_refl k)

-- A function changed at one number, as a store of numbered cells is.
abbrev pub update {ℓ} : {A : Type ℓ} → (ℕ → A) → ℕ → A → ℕ → A
update cells here value i = if here == i then value else cells i

pub update_self {ℓ} : {A : Type ℓ} (f : ℕ → A) (i : ℕ) (a : A) → update f i a i ≡ a
update_self f i a = rw (==_refl i)

pub update_ne {ℓ} : {A : Type ℓ} (f : ℕ → A) (i j : ℕ) (a : A) → j ≢ i → update f i a j ≡ f j
update_ne f i j a other = ground arith
