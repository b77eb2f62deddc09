-- ===== src/Prelude/Int.antt =====
-- Signed integers over the native numbers, with the tests that the program makes on them.
use Prim.Native.Nat.{ℕ, ◌-◌, ◌%◌}
use mathlib.Core.Path.{◌≡◌}
use mathlib.Core.Bool.{Bool, true, false}
use native.Mathlib.Omega.{arith}
use meeting_room_booking_sys.Prelude.Tests.{ltb, ◌==◌, if◌then◌else◌}

-- `negsuc n` is -(n + 1).
pub data ℤ : Type 0 where
  pos : ℕ → ℤ
  negsuc : ℕ → ℤ

abbrev pub ltb_ℤ : ℤ → ℤ → Bool
ltb_ℤ (pos a) (pos b) = ltb a b
ltb_ℤ (pos a) (negsuc b) = false
ltb_ℤ (negsuc a) (pos b) = true
ltb_ℤ (negsuc a) (negsuc b) = ltb b a

infix 50 ◌==ℤ◌
abbrev pub ◌==ℤ◌ : ℤ → ℤ → Bool
pos a ==ℤ pos b = a == b
pos a ==ℤ negsuc b = false
negsuc a ==ℤ pos b = false
negsuc a ==ℤ negsuc b = a == b

-- The Go conversion `int32(d)`, which keeps the low 32 bits.
abbrev pub to_int32 : ℤ → ℤ
to_int32 (pos n) =
    let r = n % 4294967296 in if ltb r 2147483648 then pos r else negsuc (4294967295 - r)
to_int32 (negsuc n) =
    let r = n % 4294967296 in if ltb r 2147483648 then negsuc r else pos (4294967295 - r)

pub to_int32_small : (n : ℕ) → ltb n 2147483648 ≡ true → to_int32 (pos n) ≡ pos n
to_int32_small n h = ground arith
