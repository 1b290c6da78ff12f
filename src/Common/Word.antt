-- ===== src/Common/Word.antt =====
-- Go's `int` and `int64` as their 64-bit two's complement patterns: a number below 2 ^ 64, negative
-- from 2 ^ 63 on. Addition and subtraction wrap around.
use Prim.Native.Nat.{ℕ, ◌+◌, ◌-◌, ◌%◌, ◌^◌}
use mathlib.Core.Path.{◌≡◌, refl}
use mathlib.Core.Bool.{Bool}
use emm_go_script.Common.Tests.{ltb, leb}

abbrev pub Int64 : Type 0
Int64 = ℕ

abbrev pub int_mod : ℕ
int_mod = 18446744073709551616

-- The first pattern that stands for a negative number, -2 ^ 63.
abbrev pub int_min : ℕ
int_min = 9223372036854775808

abbrev pub is_neg : Int64 → Bool
is_neg a = leb int_min a

abbrev pub add_int : Int64 → Int64 → Int64
add_int a b = (a + b) % int_mod

abbrev pub sub_int : Int64 → Int64 → Int64
sub_int a b = (a + int_mod - b) % int_mod

-- The signed order, with the ranges exchanged.
abbrev pub lt_int : Int64 → Int64 → Bool
lt_int a b = ltb ((a + int_min) % int_mod) ((b + int_min) % int_mod)

-- -1
abbrev pub minus_one : Int64
minus_one = 18446744073709551615

int_min_lem : 2 ^ 63 ≡ int_min
int_min_lem = refl

int_mod_lem : 2 ^ 64 ≡ int_mod
int_mod_lem = refl
