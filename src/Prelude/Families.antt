-- ===== src/Prelude/Families.antt =====
-- Families indexed by a number: the threads of a program, the devices of a timer.
use Prim.Native.Nat.{ℕ}
use mathlib.Core.Path.{◌≡◌, subst}
use mathlib.Core.Logic.{◌≢◌}
use mathlib.Core.Bool.{true, false}
use native.Mathlib.Omega.{arith}
use native.Mathlib.Decide.{ℕ_discrete}
use hk252_co2017_nhom2_btl.Prelude.Tests.{◌==◌, if◌then◌else◌}

-- The family `f` with `a` for member `i`
abbrev pub update {ℓ} : {A : Type ℓ} → (ℕ → A) → ℕ → A → ℕ → A
update f i a j = if i == j then a else f j

pub ==-refl : (i : ℕ) → (i == i) ≡ true
==-refl i = ground arith

==-false : (i j : ℕ) → i ≢ j → (i == j) ≡ false
==-false i j h = ground arith

module _ {ℓ} {A : Type ℓ} (f : ℕ → A) (i : ℕ) (a : A) where
  pub update_self : update f i a i ≡ a
  update_self = rw (==-refl i)

  pub update_other : (j : ℕ) → i ≢ j → update f i a j ≡ f j
  update_other j ne = rw (==-false i j ne)

  -- A member satisfies a predicate after an update, if the new one does and the others do.
  pub update-all {κ} :
      (P : ℕ → A → Type κ) → P i a → (j : ℕ) → (i ≢ j → P j (f j)) → P j (update f i a j)
  update-all P new j all = elim (ℕ_discrete i j) [
    | yes same ↦ subst (λ k. P k (update f i a k)) same (rw update_self new)
    | no other ↦ rw (update_other j other) (all other)
  ]
