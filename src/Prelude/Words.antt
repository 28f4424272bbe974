-- ===== src/Prelude/Words.antt =====
-- The C type `int` as its 32-bit word, and C strings as their bytes without the NUL.
use Prim.Native.Nat.{ℕ, zero, suc, ◌+◌, ◌-◌, ◌%◌, ◌^◌}
use mathlib.Core.Bool.{Bool, true, false, ◌&&◌}
use mathlib.Core.List.{List, [], ◌∷◌}
use smartdns_ui.Prelude.Tests.{ltb, leb, ◌==◌, if◌then◌else◌}

-- An `int` is greater than 0.
abbrev pub is_positive : ℕ → Bool
is_positive w = ltb 0 w && ltb w (2 ^ 31)

-- The order, the sum and the difference of two `int`s
abbrev pub lt32 : ℕ → ℕ → Bool
lt32 v w = ltb ((v + 2 ^ 31) % 2 ^ 32) ((w + 2 ^ 31) % 2 ^ 32)

abbrev pub add32 : ℕ → ℕ → ℕ
add32 v w = (v + w) % 2 ^ 32

abbrev pub sub32 : ℕ → ℕ → ℕ
sub32 v w = (v + (2 ^ 32 - w)) % 2 ^ 32

abbrev pub to_lower : ℕ → ℕ
to_lower b = if leb 65 b && leb b 90 then b + 32 else b

-- `strncasecmp(a, b, n) == 0`
unfoldable pub same_name : ℕ → List ℕ → List ℕ → Bool
same_name zero a b = true
same_name (suc n) [] [] = true
same_name (suc n) [] (y ∷ b) = false
same_name (suc n) (x ∷ a) [] = false
same_name (suc n) (x ∷ a) (y ∷ b) = to_lower x == to_lower y && same_name n a b

-- `strncmp(a, b, n) == 0`
unfoldable pub same_bytes : ℕ → List ℕ → List ℕ → Bool
same_bytes zero a b = true
same_bytes (suc n) [] [] = true
same_bytes (suc n) [] (y ∷ b) = false
same_bytes (suc n) (x ∷ a) [] = false
same_bytes (suc n) (x ∷ a) (y ∷ b) = x == y && same_bytes n a b
