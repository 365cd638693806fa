-- ===== src/Lownet/Crc/Bounds.antt =====
-- One round of the register as arithmetic, and the register's width.
use tol103m_assignment_p.Base.{
  ℕ, zero, suc, dec_lt, ◌+◌, ◌*◌, ◌/◌, ◌%◌, ◌^◌, ◌≤◌, ◌<◌, ◌≡◌, ap, ap₂, ◌∙◌, arith, List, [], ◌∷◌,
  bit_xor, bit_or, bit_and, u32, bit_and-one, bit_and_pow, bit_or_double, bit_xor_shift,
  bit_xor_self,
}
use tol103m_assignment_p.Lownet.Crc.{poly, crc_bit, process_bits, process_bytes, crc_of}

-- The register has 24 bits.
abbrev pub IsRegister : ℕ → Type 0
IsRegister reg = reg < 16777216

shifted : (reg b : ℕ) → IsRegister reg → bit_or (u32 (reg * 2)) (bit_and b 1) ≡ reg * 2 + b % 2
shifted reg b h = ap₂ bit_or fits (bit_and-one b) ∙ bit_or_double reg (b % 2) (omega arith)
  where
    fits : u32 (reg * 2) ≡ reg * 2
    fits = omega arith

module _ (reg b : ℕ) where
  -- The top bit is clear: no reduction.
  pub crc_bit_low : reg < 8388608 → crc_bit reg b ≡ reg * 2 + b % 2
  unfolding crc_bit
  crc_bit_low h = ground (arith, shifted reg b (omega arith), bit_and_pow 24 (reg * 2 + b % 2))

  -- The top bit is set: the shifted register is reduced.
  pub crc_bit_high : 8388608 ≤ reg → IsRegister reg → crc_bit reg b ≡ bit_xor (reg * 2 + b % 2) poly
  unfolding crc_bit
  crc_bit_high g h = ground (arith, shifted reg b h, bit_and_pow 24 (reg * 2 + b % 2))

carry : (reg b : ℕ) → 8388608 ≤ reg → IsRegister reg → (reg * 2 + b % 2) / 2 ^ 24 ≡ 1
carry reg b g h = omega arith

-- Every round leaves the register within 24 bits.
pub crc_bit-IsRegister : (reg b : ℕ) → IsRegister reg → IsRegister (crc_bit reg b)
crc_bit-IsRegister reg b h = elim (dec_lt reg 8388608) [
  | yes low ↦ omega (arith, crc_bit_low reg b low)
  | no high ↦ omega (
    arith,
    crc_bit_high reg b (omega arith) h,
    bit_xor_shift 24 (reg * 2 + b % 2) poly,
    ap (λ x. bit_xor x 1) (carry reg b (omega arith) h),
    bit_xor_self 1,
  )
]

pub process_bits-IsRegister : (n reg b : ℕ) → IsRegister reg → IsRegister (process_bits n reg b)
unfolding process_bits
process_bits-IsRegister zero reg b h = h
process_bits-IsRegister (suc n) reg b h =
    process_bits-IsRegister n (crc_bit reg b) (b / 2) (crc_bit-IsRegister reg b h)

pub process_bytes-IsRegister :
    (reg : ℕ) (bs : List ℕ) → IsRegister reg → IsRegister (process_bytes reg bs)
unfolding process_bytes
process_bytes-IsRegister reg [] h = h
process_bytes-IsRegister reg (b ∷ bs) h =
    process_bytes-IsRegister (process_bits 8 reg b) bs (process_bits-IsRegister 8 reg b h)

-- The check sum of any bytes fits 24 bits, so the top byte of the frame's crc field is zero.
pub crc_of-IsRegister : (bs : List ℕ) → IsRegister (crc_of bs)
unfolding crc_of
crc_of-IsRegister bs = process_bytes-IsRegister 0x00777777 bs (omega arith)
