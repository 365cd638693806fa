-- ===== src/Lownet/Crc/Burst.antt =====
-- What the check sum detects. Two registers that differ only in their low `k` digits stay apart
-- through up to 24 - k rounds, whatever bits are shifted in; with equal bits they stay apart for ever.
use native.Mathlib.Nat.{pow-suc, pow-succ', zero-add, div-div-eq-div-mul}
use tol103m_assignment_p.Base.{
  ℕ, zero, suc, dec_lt, ◌+◌, ◌-◌, ◌*◌, ◌/◌, ◌%◌, ◌^◌, ◌≤◌, ◌<◌, ◌≡◌, refl, sym, ap, ap₂, subst, ◌∙◌,
  arith, List, [], ◌∷◌, ◌++◌, length, AllBytes, bit_xor, bit_xor_step, bit_xor_cancel,
  bit_xor_shift, half_pow,
}
use tol103m_assignment_p.Lownet.Crc.{poly, crc_bit, process_bits, process_bytes, crc_of}
use tol103m_assignment_p.Lownet.Crc.Bounds.{
  IsRegister, crc_bit_low, crc_bit_high, crc_bit-IsRegister, process_bits-IsRegister,
  process_bytes-IsRegister,
}

xor_poly_injective : (s t : ℕ) → bit_xor s poly ≡ bit_xor t poly → s ≡ t
xor_poly_injective s t e =
    sym (bit_xor_cancel s poly) ∙ ap (λ x. bit_xor x poly) e ∙ bit_xor_cancel t poly

module _ (r s b c : ℕ) (hr : IsRegister r) (hs : IsRegister s) where
  -- Equal results come from equal registers and bits, if both rounds reduce or neither does.
  crc_bit_same_top :
      r / 8388608 ≡ s / 8388608 → crc_bit r b ≡ crc_bit s c → (r ≡ s) × (b % 2 ≡ c % 2)
  crc_bit_same_top top e = elim (dec_lt r 8388608) [
    | yes low ↦ omega (arith, crc_bit_low r b low, crc_bit_low s c (omega arith))
    | no high ↦ omega (
      arith,
      xor_poly_injective (r * 2 + b % 2) (s * 2 + c % 2)
          (sym (crc_bit_high r b (omega arith) hr) ∙ e ∙ crc_bit_high s c (omega arith) hs),
    )
  ]

  -- With equal bits the results tell which round reduced, by their lowest digit.
  crc_bit_same_bit : b % 2 ≡ c % 2 → crc_bit r b ≡ crc_bit s c → r ≡ s
  crc_bit_same_bit bit e = elim (dec_lt r 8388608) [
    | yes r_low ↦ elim (dec_lt s 8388608) [
      | yes s_low ↦ omega (arith, crc_bit_low r b r_low, crc_bit_low s c s_low)
      | no s_high ↦ omega (
        arith,
        crc_bit_low r b r_low,
        crc_bit_high s c (omega arith) hs,
        bit_xor_step (s * 2 + c % 2) poly,
      )
    ]
    | no r_high ↦ elim (dec_lt s 8388608) [
      | yes s_low ↦ omega (
        arith,
        crc_bit_low s c s_low,
        crc_bit_high r b (omega arith) hr,
        bit_xor_step (r * 2 + b % 2) poly,
      )
      | no s_high ↦ (crc_bit_same_top (omega arith) e).0
    ]
  ]

shift_once : (k r : ℕ) → r / 2 ^ suc k ≡ r / 2 ^ k / 2
shift_once k r = ap (◌/◌ r) (pow-suc 2 k) ∙ sym (div-div-eq-div-mul r (2 ^ k) 2)

same_above : (d k r s : ℕ) → k + d ≡ 23 → r / 2 ^ k ≡ s / 2 ^ k → r / 8388608 ≡ s / 8388608
same_above zero k r s h e =
    let last : k ≡ 23 = omega arith in subst (λ j. r / 2 ^ j ≡ s / 2 ^ j) last e
same_above (suc d) k r s h e =
    same_above d (suc k) r s (omega arith)
      (shift_once k r ∙ ap (λ (t : ℕ). t / 2) e ∙ sym (shift_once k s))

shifted_window : (k r b : ℕ) → (r * 2 + b % 2) / 2 ^ suc k ≡ r / 2 ^ k
shifted_window k r b = half_pow k (r * 2 + b % 2) ∙ ap (λ (t : ℕ). t / 2 ^ k) half
  where
    half : (r * 2 + b % 2) / 2 ≡ r
    half = omega arith

module _ (k r s b c : ℕ) (hr : IsRegister r) (hs : IsRegister s) (h : k ≤ 23)
    (e : r / 2 ^ k ≡ s / 2 ^ k) where
  same_top : r / 8388608 ≡ s / 8388608
  same_top = same_above (23 - k) k r s (omega arith) e

  shifted_same : (r * 2 + b % 2) / 2 ^ suc k ≡ (s * 2 + c % 2) / 2 ^ suc k
  shifted_same = shifted_window k r b ∙ e ∙ sym (shifted_window k s c)

  -- Registers that agree from digit `k` up agree from digit `k + 1` up after a round.
  crc_bit_window : crc_bit r b / 2 ^ suc k ≡ crc_bit s c / 2 ^ suc k
  crc_bit_window = elim (dec_lt r 8388608) [
    | yes low ↦
        ap (λ (t : ℕ). t / 2 ^ suc k) (crc_bit_low r b low)
        ∙ shifted_same
        ∙ ap (λ (t : ℕ). t / 2 ^ suc k) (sym (crc_bit_low s c (omega (arith, same_top))))
    | no high ↦
        ap (λ (t : ℕ). t / 2 ^ suc k) (crc_bit_high r b (omega arith) hr)
        ∙ bit_xor_shift (suc k) (r * 2 + b % 2) poly
        ∙ ap (λ (t : ℕ). bit_xor t (poly / 2 ^ suc k)) shifted_same
        ∙ sym (bit_xor_shift (suc k) (s * 2 + c % 2) poly)
        ∙ ap (λ (t : ℕ). t / 2 ^ suc k) (sym (crc_bit_high s c (omega (arith, same_top)) hs))
  ]

  crc_bit_window_injective : crc_bit r b ≡ crc_bit s c → (r ≡ s) × (b % 2 ≡ c % 2)
  crc_bit_window_injective q = crc_bit_same_top r s b c hr hs same_top q

-- The same over `n` rounds with different bits, within the width of the register.
process_bits_window :
    (n k r s b c : ℕ)
    → IsRegister r
    → IsRegister s
    → k + n ≤ 24
    → r / 2 ^ k ≡ s / 2 ^ k
    → process_bits n r b / 2 ^ (n + k) ≡ process_bits n s c / 2 ^ (n + k)
unfolding process_bits
process_bits_window zero k r s b c hr hs h e = rw zero-add e
process_bits_window (suc n) k r s b c hr hs h e =
    subst (λ j. process_bits (suc n) r b / 2 ^ j ≡ process_bits (suc n) s c / 2 ^ j) (omega arith)
      (process_bits_window n (suc k) (crc_bit r b) (crc_bit s c) (b / 2) (c / 2)
        (crc_bit-IsRegister r b hr) (crc_bit-IsRegister s c hs) (omega arith)
        (crc_bit_window k r s b c hr hs (omega arith) e))

process_bits_window_injective :
    (n k r s b c : ℕ)
    → IsRegister r
    → IsRegister s
    → k + n ≤ 24
    → r / 2 ^ k ≡ s / 2 ^ k
    → b < 2 ^ n
    → c < 2 ^ n
    → process_bits n r b ≡ process_bits n s c
    → (r ≡ s) × (b ≡ c)
unfolding process_bits
process_bits_window_injective zero k r s b c hr hs h e hb hc q = (q, omega arith)
process_bits_window_injective (suc n) k r s b c hr hs h e hb hc q =
    let above =
      process_bits_window_injective n (suc k) (crc_bit r b) (crc_bit s c) (b / 2) (c / 2)
        (crc_bit-IsRegister r b hr) (crc_bit-IsRegister s c hs) (omega arith)
        (crc_bit_window k r s b c hr hs (omega arith) e) (omega (arith, pow-succ' 2 n))
        (omega (arith, pow-succ' 2 n)) q in
    let below = crc_bit_window_injective k r s b c hr hs (omega arith) e above.0 in
    (below.0, omega (arith, below.1, above.1))

-- With the same bits shifted in, no two registers ever meet.
process_bits_injective :
    (n r s b : ℕ) → IsRegister r → IsRegister s → process_bits n r b ≡ process_bits n s b → r ≡ s
unfolding process_bits
process_bits_injective zero r s b hr hs q = q
process_bits_injective (suc n) r s b hr hs q = crc_bit_same_bit r s b b hr hs refl (
    process_bits_injective n (crc_bit r b) (crc_bit s b) (b / 2) (crc_bit-IsRegister r b hr)
      (crc_bit-IsRegister s b hs) q)

process_bytes_injective :
    (r s : ℕ) (bs : List ℕ)
    → IsRegister r
    → IsRegister s
    → process_bytes r bs ≡ process_bytes s bs
    → r ≡ s
unfolding process_bytes
process_bytes_injective r s [] hr hs q = q
process_bytes_injective r s (b ∷ bs) hr hs q = process_bits_injective 8 r s b hr hs (
    process_bytes_injective (process_bits 8 r b) (process_bits 8 s b) bs
      (process_bits-IsRegister 8 r b hr) (process_bits-IsRegister 8 s b hs) q)

-- Up to three bytes fit the register whole.
process_bytes_window :
    (k r s : ℕ) (bs cs : List ℕ)
    → IsRegister r
    → IsRegister s
    → length bs ≡ length cs
    → k + 8 * length bs ≤ 24
    → r / 2 ^ k ≡ s / 2 ^ k
    → AllBytes bs
    → AllBytes cs
    → process_bytes r bs ≡ process_bytes s cs
    → (r ≡ s) × (bs ≡ cs)
unfolding process_bytes
process_bytes_window k r s [] [] hr hs l h e hb hc q = (q, refl)
process_bytes_window k r s [] (c ∷ cs) hr hs l h e hb hc q = absurd (omega arith)
process_bytes_window k r s (b ∷ bs) [] hr hs l h e hb hc q = absurd (omega arith)
process_bytes_window k r s (b ∷ bs) (c ∷ cs) hr hs l h e hb hc q =
    let rest =
      process_bytes_window (8 + k) (process_bits 8 r b) (process_bits 8 s c) bs cs
        (process_bits-IsRegister 8 r b hr) (process_bits-IsRegister 8 s c hs) (omega arith)
        (omega arith) (process_bits_window 8 k r s b c hr hs (omega arith) e) hb.1 hc.1 q in
    let head = process_bits_window_injective 8 k r s b c hr hs (omega arith) e hb.0 hc.0 rest.0 in
    (head.0, ap₂ ◌∷◌ head.1 rest.1)

process_bytes-append :
    (r : ℕ) (bs cs : List ℕ) → process_bytes r (bs ++ cs) ≡ process_bytes (process_bytes r bs) cs
unfolding process_bytes
process_bytes-append r [] cs = refl
process_bytes-append r (b ∷ bs) cs = process_bytes-append (process_bits 8 r b) bs cs

-- An error burst within three consecutive bytes is detected: if two messages of bytes differ at
-- most in a window of at most three bytes, and have the same check sum, they are the same.
pub crc_of_burst :
    (before bs cs after : List ℕ)
    → length bs ≡ length cs
    → length bs ≤ 3
    → AllBytes bs
    → AllBytes cs
    → crc_of (before ++ (bs ++ after)) ≡ crc_of (before ++ (cs ++ after))
    → bs ≡ cs
unfolding crc_of
crc_of_burst before bs cs after l h hb hc q =
    let start = process_bytes 0x00777777 before in
    let hs : IsRegister start = process_bytes-IsRegister 0x00777777 before (omega arith) in
    let same_window : process_bytes start bs ≡ process_bytes start cs =
      process_bytes_injective _ _ after (process_bytes-IsRegister start bs hs)
        (process_bytes-IsRegister start cs hs) (sym (split bs) ∙ q ∙ split cs) in
    (process_bytes_window 0 start start bs cs hs hs l (omega arith) refl hb hc same_window).1
  where
    split :
        (ds : List ℕ)
        → process_bytes 0x00777777 (before ++ (ds ++ after))
          ≡ process_bytes (process_bytes (process_bytes 0x00777777 before) ds) after
    split ds =
        process_bytes-append 0x00777777 before (ds ++ after)
        ∙ process_bytes-append (process_bytes 0x00777777 before) ds after
