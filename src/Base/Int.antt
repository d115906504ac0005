-- ===== src/Base/Int.antt =====
-- Signed machine words: an integer and its two's complement pattern. `negsuc n` is -(n + 1).
use Prim.Native.Nat.{ℕ, ◌+◌, ◌-◌, ◌*◌, ◌%◌, ◌≤◌, ◌<◌}
use mathlib.Core.Path.{◌≡◌}
use native.Mathlib.Omega.{arith}
use native.Mathlib.Nat.{mod-eq_of_lt}
use amqp_cpp.Base.Tests.{ltb, if◌then◌else◌}

pub data ℤ : Type 0 where
  pos : ℕ → ℤ
  negsuc : ℕ → ℤ

-- The pattern of an integer in a word with `m` values, and the integer that a pattern stands for.
abbrev pub to_word : ℕ → ℤ → ℕ
to_word m (pos n) = n % m
to_word m (negsuc n) = m - 1 - n % m

abbrev pub of_word : ℕ → ℕ → ℤ
of_word m w = if ltb (2 * w) m then pos w else negsuc (m - 1 - w)

-- The integers that a word with `m` values holds.
abbrev pub InWord : ℕ → ℤ → Type 0
InWord m (pos n) = 2 * n < m
InWord m (negsuc n) = 2 * n + 2 ≤ m

-- With the modulus any positive even number.
pub of_word-to_word :
    (h : ℕ) (z : ℤ) → 0 < h → InWord (2 * h) z → of_word (2 * h) (to_word (2 * h) z) ≡ z
of_word-to_word h (pos n) p r = rw (mod-eq_of_lt {n = n} {m = 2 * h} (omega arith)) (ground arith)
of_word-to_word h (negsuc n) p r =
    rw (mod-eq_of_lt {n = n} {m = 2 * h} (omega arith)) (ground arith)

pub to_word-lt : (m : ℕ) (z : ℤ) → 0 < m → to_word m z < m
to_word-lt m (pos n) p = grind arith
to_word-lt m (negsuc n) p = omega arith
