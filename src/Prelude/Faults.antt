-- ===== src/Prelude/Faults.antt =====
-- What a C function may do besides returning: undefined behaviour, or waiting for ever.
-- Pointers are NULL, never initialised, or valid; linked lists are chains of such pointers.
use mathlib.Core.List.{List, [], ◌∷◌}
use mathlib.Core.Bool.{Bool, true, false}
use mathlib.Core.Path.{◌≡◌}
use hk252_co2017_nhom2_btl.Prelude.Tests.{if◌then◌else◌}

pub data Fault : Type 0 where
  null_deref : Fault  -- access through NULL
  uninitialised : Fault  -- use of a pointer or value that was never written
  out_of_bounds : Fault  -- access outside an array
  blocked : Fault  -- a mutex that is never released
  terminated : Fault  -- exit(1)
  out_of_fuel : Fault  -- the model stopped a loop

pub data Outcome {ℓ} (A : Type ℓ) : Type ℓ where
  ok : A → Outcome A
  fault : Fault → Outcome A

infixl 5 ◌>>=◌ ◌>>◌
abbrev pub ◌>>=◌ {ℓ κ} : {A : Type ℓ} {B : Type κ} → Outcome A → (A → Outcome B) → Outcome B
ok a >>= f = f a
fault e >>= f = fault e

abbrev pub ◌>>◌ {ℓ} : {B : Type ℓ} → Outcome (Unit {0}) → Outcome B → Outcome B
m >> k = m >>= λ _. k

pub data Ptr {ℓ} (A : Type ℓ) : Type ℓ where
  null : Ptr A
  wild : Ptr A
  ptr : A → Ptr A

-- The access `*p`.
abbrev pub deref {ℓ} : {A : Type ℓ} → Ptr A → Outcome A
deref null = fault null_deref
deref wild = fault uninitialised
deref (ptr a) = ok a

-- A singly linked list: `end` is NULL, `dangling` a link that was never written.
pub data Chain {ℓ} (A : Type ℓ) : Type ℓ where
  end : Chain A
  dangling : Chain A
  node : A → Chain A → Chain A

-- The list that holds `xs` and ends in NULL.
abbrev pub of_list {ℓ} : {A : Type ℓ} → List A → Chain A
of_list [] = end
of_list (x ∷ xs) = node x (of_list xs)

-- `P` holds of the result, if the call returns.
abbrev pub Always {ℓ κ} : {A : Type ℓ} → (A → Type κ) → Outcome A → Type κ
Always P (ok a) = P a
Always P (fault e) = Unit

-- The call returns.
abbrev pub Returns {ℓ} : {A : Type ℓ} → Outcome A → Type ℓ
Returns {A = A} m = (a : A) × (m ≡ ok a)

pub Always->>= {ℓ κ ι} :
    {A : Type ℓ} {B : Type κ} (P : B → Type ι) (m : Outcome A) (f : A → Outcome B)
    → ((a : A) → Always P (f a))
    → Always P (m >>= f)
Always->>= P (ok a) f h = h a
Always->>= P (fault e) f h = tt

pub Always-if {ℓ κ} :
    {A : Type ℓ} (P : A → Type κ) (b : Bool) (x y : Outcome A)
    → Always P x
    → Always P y
    → Always P (if b then x else y)
Always-if P true x y h k = h
Always-if P false x y h k = k

-- What holds of every result of `m` may be used in what follows.
pub Always-trans {ℓ κ ι ο} :
    {A : Type ℓ} {B : Type κ} (P : A → Type ι) (Q : B → Type ο) (m : Outcome A) (f : A → Outcome B)
    → Always P m
    → ((a : A) → P a → Always Q (f a))
    → Always Q (m >>= f)
Always-trans P Q (ok a) f p h = h a p
Always-trans P Q (fault e) f p h = tt

-- A test known to fail leaves the second branch.
pub Always-else {ℓ κ} :
    {A : Type ℓ} (P : A → Type κ) (b : Bool) (x y : Outcome A)
    → b ≡ false
    → Always P y
    → Always P (if b then x else y)
Always-else P true x y h k = cc
Always-else P false x y h k = k

pub Always-mono {ℓ κ ι} :
    {A : Type ℓ} (P : A → Type κ) (Q : A → Type ι) (m : Outcome A)
    → Always P m
    → ((a : A) → P a → Always Q (ok a))
    → Always Q m
Always-mono P Q (ok a) p h = h a p
Always-mono P Q (fault e) p h = tt
