-- ===== src/Lownet/Crc.antt =====
-- lownet_crc of managed_components/lownet/lownet.c: a 24-bit shift register, lowest bit of each
-- byte first, reduced modulo G(x). The frame's bytes are an argument here.
pub mod Bounds
pub mod Burst
use tol103m_assignment_p.Base.{
  ℕ, zero, suc, ◌*◌, ◌/◌, ◌==◌, List, [], ◌∷◌, bit_and, bit_or, bit_xor, u32, if◌then◌else◌,
}

abbrev pub poly : ℕ
poly = 0x1800463

-- One round of the loop in process_byte: the register after the lowest bit of `b`.
pub crc_bit : ℕ → ℕ → ℕ
crc_bit reg b =
    let s = bit_or (u32 (reg * 2)) (bit_and b 1) in
    if bit_and s 0x1000000 == 0 then s else bit_xor s poly

-- The loop of process_byte, by the rounds left.
pub process_bits : ℕ → ℕ → ℕ → ℕ
process_bits zero reg b = reg
process_bits (suc n) reg b = process_bits n (crc_bit reg b) (b / 2)

abbrev pub process_byte : ℕ → ℕ → ℕ
process_byte reg b = process_bits 8 reg b

pub process_bytes : ℕ → List ℕ → ℕ
process_bytes reg [] = reg
process_bytes reg (b ∷ bs) = process_bytes (process_byte reg b) bs

-- The check sum of the bytes that the loop of lownet_crc reads.
unfoldable pub crc_of : List ℕ → ℕ
unfolding process_bytes process_bits crc_bit
crc_of bs = process_bytes 0x00777777 bs
