-- ===== src/Prelude/Words.antt =====
-- Unsigned machine words as native numbers. The shipped binary is a release build, so `+`, `-` and
-- `*` wrap at the word's size, `as` keeps the low bits, and a division by zero panics.
use Prim.Native.Nat.{ℕ, ◌+◌, ◌-◌, ◌*◌, ◌/◌, ◌%◌, ◌^◌, ◌≤◌, ◌<◌}
use mathlib.Core.Path.{◌≡◌}
use mathlib.Core.Option.{Option, none, some}
use native.Mathlib.Omega.{arith}
use native.Mathlib.Nat.{mod-eq_of_lt}
use taiko_preconfer.Prelude.Tests.{◌==◌, if◌then◌else◌}

abbrev pub u64_mod : ℕ
u64_mod = 2 ^ 64

abbrev pub add64 : ℕ → ℕ → ℕ
add64 a b = (a + b) % u64_mod

abbrev pub sub64 : ℕ → ℕ → ℕ
sub64 a b = (a + u64_mod - b) % u64_mod

abbrev pub mul64 : ℕ → ℕ → ℕ
mul64 a b = (a * b) % u64_mod

abbrev pub as_u8 : ℕ → ℕ
as_u8 a = a % 256

abbrev pub as_u16 : ℕ → ℕ
as_u16 a = a % 2 ^ 16

abbrev pub as_u32 : ℕ → ℕ
as_u32 a = a % 2 ^ 32

abbrev pub as_u64 : ℕ → ℕ
as_u64 a = a % u64_mod

-- `a / b` and `a % b`: none is the panic at zero.
abbrev pub div? : ℕ → ℕ → Option ℕ
div? a b = if b == 0 then none else some (a / b)

abbrev pub mod? : ℕ → ℕ → Option ℕ
mod? a b = if b == 0 then none else some (a % b)

pub div?_pos : (a b : ℕ) → 0 < b → div? a b ≡ some (a / b)
div?_pos a b h = ground arith

pub mod?_pos : (a b : ℕ) → 0 < b → mod? a b ≡ some (a % b)
mod?_pos a b h = ground arith

-- Where the exact result fits, nothing wraps.
pub add64_exact : (a b : ℕ) → a + b < u64_mod → add64 a b ≡ a + b
add64_exact a b h = omega arith

pub sub64_exact : (a b : ℕ) → b ≤ a → a < u64_mod → sub64 a b ≡ a - b
sub64_exact a b h k = omega arith

pub mul64_exact : (a b : ℕ) → a * b < u64_mod → mul64 a b ≡ a * b
mul64_exact a b h = mod-eq_of_lt h

-- The do blocks of code that may panic.
infixl 5 ◌>>=◌
abbrev pub ◌>>=◌ {ℓ κ} : {A : Type ℓ} {B : Type κ} → Option A → (A → Option B) → Option B
none >>= f = none
some a >>= f = f a
