-- ===== src/Prelude/Int.antt =====
-- A Go int as an integer of any size; `negsuc n` is -(n + 1).
use Prim.Native.Nat.{ℕ, zero, suc}
use mathlib.Core.Path.{◌≡◌, refl, ap}
use mathlib.Core.Logic.{◌↔◌}
use native.Mathlib.Omega.{arith}
use virmux.Prelude.Tests.{◌==◌, ==_iff}
use mathlib.Core.Bool.{Bool, true, false}

pub data ℤ : Type 0 where
  pos : ℕ → ℤ
  negsuc : ℕ → ℤ

-- x++
abbrev pub inc : ℤ → ℤ
inc (pos n) = pos (suc n)
inc (negsuc zero) = pos 0
inc (negsuc (suc n)) = negsuc n

-- x--
abbrev pub dec : ℤ → ℤ
dec (pos zero) = negsuc 0
dec (pos (suc n)) = pos n
dec (negsuc n) = negsuc (suc n)

-- x == 0
abbrev pub is_zero : ℤ → Bool
is_zero (pos zero) = true
is_zero (pos (suc n)) = false
is_zero (negsuc n) = false

-- x == y
abbrev pub int_eq : ℤ → ℤ → Bool
int_eq (pos m) (pos n) = m == n
int_eq (negsuc m) (negsuc n) = m == n
int_eq _ _ = false

pub int_eq_iff : (x y : ℤ) → (int_eq x y ≡ true) ↔ (x ≡ y)
int_eq_iff (pos m) (pos n) = (λ h. ap pos ((==_iff m n).0 h), λ h. (==_iff m n).1 cc)
int_eq_iff (negsuc m) (negsuc n) = (λ h. ap negsuc ((==_iff m n).0 h), λ h. (==_iff m n).1 cc)
int_eq_iff (pos m) (negsuc n) = ground arith
int_eq_iff (negsuc m) (pos n) = ground arith

pub int_eq_refl : (x : ℤ) → int_eq x x ≡ true
int_eq_refl x = (int_eq_iff x x).1 refl
