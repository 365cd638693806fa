-- ===== src/Utility/Hex.antt =====
-- hex_to_dec as a number, and reading back what format_id writes.
use tol103m_assignment_p.Base.{
  ℕ, ap, ℕ_discrete, zero, suc, ◌+◌, ◌-◌, ◌*◌, ◌<◌, ◌≡◌, refl, arith, List, [], ◌∷◌, Bool, true,
  false, ◌&&◌, ◌==◌, ==_iff, ltb, leb, AllBytes, ◌∙◌, if◌then◌else◌, drop, u32,
}
use tol103m_assignment_p.Utility.{hex_map, find_digit, hex_loop, hex_to_dec, format_id}

-- A test of every number below a bound.
module _ (test : ℕ → Bool) where
  passes_to : ℕ → Bool
  passes_to zero = true
  passes_to (suc bound) = let rest = passes_to bound in if test bound then rest else false

  passes_to-test : (c bound : ℕ) → c < bound → passes_to bound ≡ true → test c ≡ true
  unfolding passes_to
  passes_to-test c zero below e = absurd (omega arith)
  passes_to-test c (suc bound) below e = elim (ℕ_discrete c bound) [
    | yes last ↦ let e' : test bound ≡ true = ground arith in ap test last ∙ e'
    | no other ↦ passes_to-test c bound (omega arith) (ground arith)
  ]

id_table : passes_to (λ id. hex_to_dec (drop 2 (format_id id)) == id) 256 ≡ true
unfolding passes_to hex_to_dec format_id
id_table = refl

-- What format_id writes for a node, the commands read back as that node.
pub hex_to_dec-format_id : (id : ℕ) → id < 256 → hex_to_dec (drop 2 (format_id id)) ≡ id
hex_to_dec-format_id id h =
    (==_iff _ id).0
      (passes_to-test (λ id. hex_to_dec (drop 2 (format_id id)) == id) id 256 h id_table)

-- The value of one digit, of either case; 16 for any other byte.
abbrev pub digit_value : ℕ → ℕ
digit_value c =
    if leb b'0' c && leb c b'9'
    then c - b'0'
    else (if leb b'a' c && leb c b'f'
        then c - b'a' + 10
        else (if leb b'A' c && leb c b'F' then c - b'A' + 10 else 16))

-- The number that a list of digits denotes, with `acc` in front.
abbrev pub hex_value : List ℕ → ℕ → ℕ
hex_value [] acc = acc
hex_value (c ∷ cs) acc = hex_value cs (acc * 16 + digit_value c)

abbrev pub all_digits : List ℕ → Bool
all_digits [] = true
all_digits (c ∷ cs) = ltb (digit_value c) 16 && all_digits cs

digit_table : passes_to (λ c. find_digit c hex_map 0 == digit_value c) 256 ≡ true
unfolding passes_to find_digit
digit_table = refl

find_digit_lem : (c : ℕ) → c < 256 → find_digit c hex_map 0 ≡ digit_value c
find_digit_lem c h =
    (==_iff _ (digit_value c)).0
      (passes_to-test (λ c. find_digit c hex_map 0 == digit_value c) c 256 h digit_table)

hex_loop_step :
    (c : ℕ) (cs : List ℕ) (acc : ℕ)
    → c < 256
    → hex_loop (c ∷ cs) (u32 acc)
      ≡ (if ltb (digit_value c) 16 then hex_loop cs (u32 (acc * 16 + digit_value c)) else 0)
unfolding hex_loop
hex_loop_step c cs acc h =
    let same : u32 (u32 (u32 acc * 16) + digit_value c) ≡ u32 (acc * 16 + digit_value c) =
      omega arith in
    rw (find_digit_lem c h) (rw same (flip_test (digit_value c) _))
  where
    flip_test : (d x : ℕ) → (if ltb 0x0F d then 0 else x) ≡ (if ltb d 16 then x else 0)
    flip_test d x = ground arith

hex_loop_lem :
    (cs : List ℕ) (acc : ℕ)
    → AllBytes cs
    → hex_loop cs (u32 acc) ≡ (if all_digits cs then u32 (hex_value cs acc) else 0)
hex_loop_lem [] acc b = unfold hex_loop in refl
hex_loop_lem (c ∷ cs) acc b =
    hex_loop_step c cs acc b.0
    ∙ test_both (ltb (digit_value c) 16) (all_digits cs) _ _
        (hex_loop_lem cs (acc * 16 + digit_value c) b.1)
  where
    test_both :
        (p q : Bool) (x y : ℕ)
        → x ≡ (if q then y else 0)
        → (if p then x else 0) ≡ (if p && q then y else 0)
    test_both true q x y e = e
    test_both false q x y e = refl

-- hex_to_dec gives the number that the digits, of either case, denote, modulo 2^32; and 0 if any
-- byte is no digit.
pub hex_to_dec_lem :
    (cs : List ℕ)
    → AllBytes cs
    → hex_to_dec cs ≡ (if all_digits cs then u32 (hex_value cs 0) else 0)
hex_to_dec_lem cs b = unfold hex_to_dec in hex_loop_lem cs 0 b
