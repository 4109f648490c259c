-- ===== src/Cpu/Alu.antt =====
-- The arithmetic of the execution stage, cpu.cc: the `..._exec` functions of arithmetic, as functions
-- of the two operands `*alu_src_a` and `*alu_src_b`. An `int32` is its 32-bit pattern. What `add_exec` and
-- `sub_exec` do where the signed sum does not fit is undefined in the language, and here. `addu_exec` and
-- `subu_exec`, which test nothing, are taken to wrap, though the source adds signed numbers there too.
pub mod Overflow
use cube_sim.Common.{
  Bool, Option, bit_and, bit_or, bit_xor, if◌then◌else◌, leb, ltb, none, not, some, ℕ, ◌%◌, ◌&&◌,
  ◌*◌, ◌+◌, ◌-◌, ◌/◌, ◌==◌, ◌^◌, ◌||◌,
}
use cube_sim.Common.Int.{leb_ℤ, negsuc, pos, ℤ, ◌+ℤ◌, ◌-ℤ◌}
use cube_sim.Common.Bits.{add32, not32, shl32, sub32}

abbrev pub is_negative : ℕ → Bool
is_negative a = leb (2 ^ 31) a

abbrev pub signed32 : ℕ → ℤ
signed32 a = if is_negative a then negsuc (2 ^ 32 - a - 1) else pos a

-- Whether an `int32` holds the number.
abbrev pub fits_int32 : ℤ → Bool
fits_int32 z = leb_ℤ (negsuc (2 ^ 31 - 1)) z && leb_ℤ z (pos (2 ^ 31 - 1))

-- What an operation with a test for overflow comes to: the language leaves it undefined, it raises the
-- exception Ov and writes no result, or it has a result.
pub data Checked : Type 0 where
  undefined raises_ov : Checked
  result : ℕ → Checked

unfoldable pub add_exec : ℕ → ℕ → Checked
add_exec a b =
    let sum = add32 a b in
    if not (fits_int32 (signed32 a +ℤ signed32 b))
    then undefined
    else (if is_negative a && is_negative b && not (is_negative sum)
          || not (is_negative a) && not (is_negative b) && is_negative sum
        then raises_ov
        else result sum)

unfoldable pub addu_exec : ℕ → ℕ → ℕ
addu_exec a b = add32 a b

unfoldable pub sub_exec : ℕ → ℕ → Checked
sub_exec a b =
    let diff = sub32 a b in
    if not (fits_int32 (signed32 a -ℤ signed32 b))
    then undefined
    else (if is_negative a && not (is_negative b) && not (is_negative diff)
          || not (is_negative a) && is_negative b && is_negative diff
        then raises_ov
        else result diff)

unfoldable pub subu_exec : ℕ → ℕ → ℕ
subu_exec a b = sub32 a b

unfoldable pub and_exec : ℕ → ℕ → ℕ
and_exec a b = bit_and a b

unfoldable pub or_exec : ℕ → ℕ → ℕ
or_exec a b = bit_or a b

unfoldable pub xor_exec : ℕ → ℕ → ℕ
xor_exec a b = bit_xor a b

unfoldable pub nor_exec : ℕ → ℕ → ℕ
nor_exec a b = not32 (bit_or a b)

unfoldable pub slt_exec : ℕ → ℕ → ℕ
slt_exec a b = if leb_ℤ (signed32 b) (signed32 a) then 0 else 1

unfoldable pub sltu_exec : ℕ → ℕ → ℕ
sltu_exec a b = if ltb a b then 1 else 0

unfoldable pub lui_exec : ℕ → ℕ
lui_exec b = shl32 b 16

-- `a >> b` of an `int32`: the sign is repeated in the bits that come in.
unfoldable pub shift_right : ℕ → ℕ → ℕ
shift_right a b = (a + (if is_negative a then (2 ^ b - 1) * 2 ^ 32 else 0)) / 2 ^ b

unfoldable pub srl : ℕ → ℕ → ℕ
unfolding shift_right
srl a b =
    if b == 0 then a else (if b == 32 then 0 else bit_and (shift_right a b) (2 ^ (32 - b) - 1))

unfoldable pub sra : ℕ → ℕ → ℕ
unfolding shift_right
sra a b =
    if b == 0 then a else bit_or (shift_right a b) (a / 2 ^ 31 % 2 * ((2 ^ b - 1) * 2 ^ (32 - b)))

unfoldable pub sll_exec : ℕ → ℕ → ℕ
sll_exec a b = shl32 a (bit_and b 0x1f)

unfoldable pub srl_exec : ℕ → ℕ → ℕ
srl_exec a b = srl a (bit_and b 0x1f)

unfoldable pub sra_exec : ℕ → ℕ → ℕ
sra_exec a b = sra a (bit_and b 0x1f)

-- The words `*hi` and `*lo`, with HAVE_LONG_LONG of types.h.
unfoldable pub mult64 : ℕ → ℕ → ℕ × ℕ
mult64 n m = (n * m / 2 ^ 32 % 2 ^ 32, n * m % 2 ^ 32)

-- `(int64) n`, as a 64-bit pattern.
abbrev pub widen : ℕ → ℕ
widen n = if is_negative n then n + (2 ^ 64 - 2 ^ 32) else n

unfoldable pub mult64s : ℕ → ℕ → ℕ × ℕ
mult64s n m = let result = widen n * widen m % 2 ^ 64 in (result / 2 ^ 32 % 2 ^ 32, result % 2 ^ 32)

-- The quotient and the remainder `hi_temp` and `lo_temp` of divu_exec; `none` where the program
-- divides by 0.
unfoldable pub divu_exec : ℕ → ℕ → Option (ℕ × ℕ)
divu_exec a b = if b == 0 then none else some (a % b, a / b)
