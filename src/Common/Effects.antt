-- ===== src/Common/Effects.antt =====
-- How a call of a C function ends, and the signed results of the system calls.
use Prim.Native.Nat.{ℕ, zero, suc}
use mathlib.Core.Path.{◌≡◌, refl, subst}
use mathlib.Core.Bool.{Bool, true, false}
use mathlib.Core.Option.{Option, none, some}
use soc.Common.Tests.{if◌then◌else◌}
use native.Mathlib.Omega.{arith}

-- `exits` ends the process through err(3); `faults` is undefined behaviour, such as an access out
-- of bounds or through a null pointer.
pub data Call {ℓ} (A : Type ℓ) : Type ℓ where
  returns : A → Call A
  exits : Call A
  faults : Call A

infixl 5 ◌>>=◌
abbrev pub ◌>>=◌ {ℓ κ} : {A : Type ℓ} {B : Type κ} → Call A → (A → Call B) → Call B
returns a >>= f = f a
exits >>= f = exits
faults >>= f = faults

-- A call that may run out of fuel (`none`), and what follows it.
infixl 5 ◌>?>◌
abbrev pub ◌>?>◌ : {A B : Type 0} → Call (Option A) → (A → Call (Option B)) → Call (Option B)
m >?> f = m >>= λ o. elim o [ none ↦ returns none | some a ↦ f a ]

-- What holds of the value if the call returns.
pub data Ends {ℓ κ} {A : Type ℓ} (P : A → Type κ) : Call A → Type (ℓ ⊔ κ) where
  on_return : (a : A) → P a → Ends P (returns a)
  on_exit : Ends P exits
  on_fault : Ends P faults

pub Ends-bind {ℓ κ π} :
    {A : Type ℓ} {B : Type κ} {P : B → Type π} (m : Call A) (f : A → Call B)
    → ((a : A) → Ends P (f a))
    → Ends P (m >>= f)
Ends-bind (returns a) f h = h a
Ends-bind exits f h = on_exit
Ends-bind faults f h = on_fault

pub Ends-then {ℓ κ π ρ} :
    {A : Type ℓ} {B : Type κ} {Q : A → Type ρ} {P : B → Type π} (m : Call A) (f : A → Call B)
    → Ends Q m
    → ((a : A) → Q a → Ends P (f a))
    → Ends P (m >>= f)
Ends-then m f (on_return a q) h = h a q
Ends-then m f on_exit h = on_exit
Ends-then m f on_fault h = on_fault

pub Ends-if {ℓ κ} :
    {A : Type ℓ} {P : A → Type κ} (b : Bool) {x y : Call A}
    → Ends P x
    → Ends P y
    → Ends P (if b then x else y)
Ends-if true h k = h
Ends-if false h k = k

returns-injective {ℓ} : {A : Type ℓ} (a b : A) → returns a ≡ returns b → a ≡ b
returns-injective a b e = ground arith

pub Ends-value {ℓ κ} :
    {A : Type ℓ} (P : A → Type κ) {m : Call A} (a : A) → Ends P m → m ≡ returns a → P a
Ends-value P a (on_return b p) e = subst P (returns-injective b a e) p
Ends-value P a on_exit e = absurd (ground arith)
Ends-value P a on_fault e = absurd (ground arith)

-- A value comes from a value of the first call.
pub >>=-returns :
    {A B : Type 0} (m : Call A) (f : A → Call B) (b : B)
    → (m >>= f) ≡ returns b
    → (a : A) × (m ≡ returns a) × (f a ≡ returns b)
>>=-returns (returns a) f b e = (a, refl, e)
>>=-returns exits f b e = absurd (ground arith)
>>=-returns faults f b e = absurd (ground arith)

pub >?>-some :
    {A B : Type 0} (m : Call (Option A)) (f : A → Call (Option B)) (b : B)
    → (m >?> f) ≡ returns (some b)
    → (a : A) × (m ≡ returns (some a)) × (f a ≡ returns (some b))
>?>-some (returns none) f b e = absurd (ground arith)
>?>-some (returns (some a)) f b e = (a, refl, e)
>?>-some exits f b e = absurd (ground arith)
>?>-some faults f b e = absurd (ground arith)

pub some_of_returns {ℓ} :
    {A : Type ℓ} (a b : A) → ◌≡◌ {A = Call (Option A)} (returns (some a)) (returns (some b)) → a ≡ b
some_of_returns a b e = cc

-- `ssize_t` and `int`: `negsuc n` is -(n + 1).
pub data ℤ : Type 0 where
  pos : ℕ → ℤ
  negsuc : ℕ → ℤ

-- `x > 0`
abbrev pub is_positive : ℤ → Bool
is_positive (pos zero) = false
is_positive (pos (suc n)) = true
is_positive (negsuc n) = false

-- `x` as a condition
abbrev pub is_true : ℤ → Bool
is_true (pos zero) = false
is_true (pos (suc n)) = true
is_true (negsuc n) = true

abbrev pub is_negative : ℤ → Bool
is_negative (pos n) = false
is_negative (negsuc n) = true
