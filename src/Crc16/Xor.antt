-- ===== src/Crc16/Xor.antt =====
-- Exclusive or of numbers: its lowest digit, its size, and shifted operands.
use Prim.Native.Nat.{bit_xor, bit_xor-bitwise, digits, differ}
use native.Mathlib.Numerals.{unary_clauses}
use pyrsedis.Prelude.{ℕ, zero, suc, ◌+◌, ◌*◌, ◌/◌, ◌%◌, ◌^◌, ◌≤◌, ◌<◌, ◌≡◌, refl, arith}

differ_zero : (x : ℕ) → differ x 0 ≡ x
differ_zero zero = refl
differ_zero (suc x) = refl

differ_bit : (x y : ℕ) → x < 2 → y < 2 → differ x y < 2
differ_bit zero y hx hy = hy
differ_bit (suc x) zero hx hy = hx
differ_bit (suc x) (suc y) hx hy = differ_bit x y (omega arith) (omega arith)

abbrev xor_digits : ℕ → ℕ → ℕ → ℕ
xor_digits count x y = digits (λ rest. rest) differ count x y

-- More digits to go than the first number has change nothing.
xor_digits_enough :
    (x count other y : ℕ) → x ≤ count → x ≤ other → xor_digits count x y ≡ xor_digits other x y
xor_digits_enough zero zero zero y p q = refl
xor_digits_enough zero zero (suc other) y p q = refl
xor_digits_enough zero (suc count) zero y p q = refl
xor_digits_enough zero (suc count) (suc other) y p q = refl
xor_digits_enough (suc x) zero other y p q = absurd (omega arith)
xor_digits_enough (suc x) (suc count) zero y p q = absurd (omega arith)
xor_digits_enough (suc x) (suc count) (suc other) y p q =
    let halves = xor_digits_enough (suc x / 2) count other (y / 2) (omega arith) (omega arith) in
    omega (arith, halves)

zero-bit_xor : (y : ℕ) → bit_xor 0 y ≡ y
zero-bit_xor y = bit_xor-bitwise 0 y

pub xor_lowest : (x y : ℕ) → bit_xor x y ≡ bit_xor (x / 2) (y / 2) * 2 + differ (x % 2) (y % 2)
xor_lowest zero y = omega (arith, zero-bit_xor y, zero-bit_xor (y / 2))
xor_lowest (suc x) y =
    let half = suc x / 2 in
    let enough = xor_digits_enough half half x (y / 2) (omega arith) (omega arith) in
    omega (arith, bit_xor-bitwise (suc x) y, bit_xor-bitwise half (y / 2), enough)

-- No more digits than the operands have.
pub bit_xor_lt : (k x y : ℕ) → x < 2 ^ k → y < 2 ^ k → bit_xor x y < 2 ^ k
bit_xor_lt zero x y hx hy = omega (arith, zero-bit_xor y, small)
  where
    small : bit_xor x y ≡ y
    small = rw (only_zero) (zero-bit_xor y)
      where
        only_zero : x ≡ 0
        only_zero = omega arith
bit_xor_lt (suc k) x y hx hy =
    let wide_x : x < 2 ^ k * 2 = simp unary_clauses at hx in
    let wide_y : y < 2 ^ k * 2 = simp unary_clauses at hy in
    omega (
      arith,
      xor_lowest x y,
      bit_xor_lt k (x / 2) (y / 2) (omega arith) (omega arith),
      differ_bit (x % 2) (y % 2) (omega arith) (omega arith),
    )

-- An operand whose lowest digit is 0 leaves that of the other.
pub bit_xor-double : (x y : ℕ) → bit_xor x (y * 2) ≡ bit_xor (x / 2) y * 2 + x % 2
bit_xor-double x y = rw (half, even, differ_zero (x % 2)) at (xor_lowest x (y * 2))
  where
    half : y * 2 / 2 ≡ y
    half = omega arith

    even : (y * 2) % 2 ≡ 0
    even = omega arith

bit_xor-quadruple : (x y : ℕ) → bit_xor x (y * 4) ≡ bit_xor (x / 4) y * 4 + x % 4
bit_xor-quadruple x y = omega (arith, outer, inner)
  where
    twice : y * 2 * 2 ≡ y * 4
    twice = omega arith

    halves : x / 2 / 2 ≡ x / 4
    halves = omega arith

    outer : bit_xor x (y * 4) ≡ bit_xor (x / 2) (y * 2) * 2 + x % 2
    outer = rw twice at (bit_xor-double x (y * 2))

    inner : bit_xor (x / 2) (y * 2) ≡ bit_xor (x / 4) y * 2 + x / 2 % 2
    inner = rw halves at (bit_xor-double (x / 2) y)

bit_xor-sixteen : (x y : ℕ) → bit_xor x (y * 16) ≡ bit_xor (x / 16) y * 16 + x % 16
bit_xor-sixteen x y = omega (arith, outer, inner)
  where
    twice : y * 4 * 4 ≡ y * 16
    twice = omega arith

    quarters : x / 4 / 4 ≡ x / 16
    quarters = omega arith

    outer : bit_xor x (y * 16) ≡ bit_xor (x / 4) (y * 4) * 4 + x % 4
    outer = rw twice at (bit_xor-quadruple x (y * 4))

    inner : bit_xor (x / 4) (y * 4) ≡ bit_xor (x / 16) y * 4 + x / 4 % 4
    inner = rw quarters at (bit_xor-quadruple (x / 4) y)

-- A byte under the high half of a number leaves the low half.
pub bit_xor-high : (x y : ℕ) → bit_xor x (y * 256) ≡ bit_xor (x / 256) y * 256 + x % 256
bit_xor-high x y = omega (arith, outer, inner)
  where
    twice : y * 16 * 16 ≡ y * 256
    twice = omega arith

    parts : x / 16 / 16 ≡ x / 256
    parts = omega arith

    outer : bit_xor x (y * 256) ≡ bit_xor (x / 16) (y * 16) * 16 + x % 16
    outer = rw twice at (bit_xor-sixteen x (y * 16))

    inner : bit_xor (x / 16) (y * 16) ≡ bit_xor (x / 256) y * 16 + x / 16 % 16
    inner = rw parts at (bit_xor-sixteen (x / 16) y)
