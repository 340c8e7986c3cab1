-- ===== src/Prelude/Faults.antt =====
-- How a piece of kernel code ends: with a value, or stopped by a failed `assert`, by `panic`, in a
-- loop that never leaves, by an access past the end of a table, through a null pointer, or by an
-- operation on an `int` that overflows.
use Prim.Native.Nat.{ℕ, bit_and, bit_xor}
use mathlib.Core.Path.{◌≡◌, refl}
use mathlib.Core.Bool.{Bool, true, false, not}
use minx.Prelude.Tests.{◌==◌}

-- `x & flag`, as a condition.
abbrev pub has_flag : ℕ → ℕ → Bool
has_flag x flag = not (bit_and x flag == 0)

-- `x & ~flag`, on 32 bits.
abbrev pub clear_flag : ℕ → ℕ → ℕ
clear_flag x flag = bit_and x (bit_xor flag 0xffff_ffff)

pub data Fault : Type 0 where
  assertion panic hang overrun null_pointer overflow : Fault

-- The outcome of an operation that may stop the kernel.
pub data Result {ℓ} (Value : Type ℓ) : Type ℓ where
  stop : Fault → Result Value
  ok : Value → Result Value

infixl 5 ◌>>◌ ◌>>=◌
-- One piece of code after another whose value it uses.
abbrev pub ◌>>=◌ {ℓ κ} :
    {Value : Type ℓ} {Next : Type κ} → Result Value → (Value → Result Next) → Result Next
stop fault >>= after = stop fault
ok value >>= after = after value

-- One piece of code after another that gives no value.
abbrev pub ◌>>◌ {ℓ} : {Value : Type ℓ} → Result (Unit {0}) → Result Value → Result Value
first >> after = first >>= λ done. after

-- `assert(exp)`: code after a failed assertion is never reached.
abbrev pub check : Bool → Result (Unit {0})
check false = stop assertion
check true = ok tt

pub check-ok {ℓ} : {B : Type ℓ} (b : Bool) (r : Result B) → b ≡ true → (check b >> r) ≡ r
check-ok b r h = rw h

pub bind-ok {ℓ κ} :
    {A : Type ℓ} {B : Type κ} (m : Result A) (f : A → Result B) (a : A) → m ≡ ok a → (m >>= f) ≡ f a
bind-ok m f a h = rw h

-- A check that the code gets past holds.
pub ok_of_check {ℓ} :
    {Value : Type ℓ} (b : Bool) (after : Result Value) {value : Value}
    → (check b >> after) ≡ ok value
    → (b ≡ true) × (after ≡ ok value)
ok_of_check true after h = (refl, h)
ok_of_check false after h = cc

-- The operation stops with this fault, or returns a value with the property.
abbrev pub Yields : {A : Type 0} → Fault → (A → Type 0) → Result A → Type 0
Yields fault P (stop f) = f ≡ fault
Yields fault P (ok a) = P a

pub then-Yields :
    {A B : Type 0} (fault : Fault) (Q : A → Type 0) (P : B → Type 0) (m : Result A)
    (f : A → Result B)
    → Yields fault Q m
    → ((a : A) → Q a → Yields fault P (f a))
    → Yields fault P (m >>= f)
then-Yields fault Q P (stop g) f h k = h
then-Yields fault Q P (ok a) f h k = k a h

pub check-Yields :
    {B : Type 0} (P : B → Type 0) (b : Bool) (r : Result B)
    → (b ≡ true → Yields assertion P r)
    → Yields assertion P (check b >> r)
check-Yields P true r h = h refl
check-Yields P false r h = refl

pub Yields-map :
    {A : Type 0} (fault : Fault) (P Q : A → Type 0) (m : Result A)
    → ((a : A) → P a → Q a)
    → Yields fault P m
    → Yields fault Q m
Yields-map fault P Q (stop g) f h = h
Yields-map fault P Q (ok a) f h = f a h
