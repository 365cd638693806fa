-- ===== src/Utility/Compare.antt =====
-- buffers_compare of managed_components/utility/utility.c, and the comparisons of
-- managed_components/command/hash.c and signature.c that are made with it.
use tol103m_assignment_p.Base.{
  ℕ, suc, ◌+◌, ◌*◌, ◌<◌, ◌≡◌, ◌↔◌, refl, sym, ap, ◌∙◌, arith, inl, inr, List, [], ◌∷◌, Bool, true,
  false, ltb, if◌then◌else◌, Bool-cases, length, AllBytes, bytes_eq, bytes_eq→eq, bytes_eq_self,
}
use tol103m_assignment_p.Lownet.Time.{Sign, minus_one, one}
use tol103m_assignment_p.Utility.{buffers_equal}

-- The sign of memcmp(a, b, size), for buffers of `size` bytes.
unfoldable pub buffers_compare : List ℕ → List ℕ → Sign
buffers_compare [] ys = Sign.zero
buffers_compare (x ∷ xs) [] = Sign.zero
buffers_compare (x ∷ xs) (y ∷ ys) =
    let rest = buffers_compare xs ys in
    if ltb x y then minus_one else (if ltb y x then one else rest)

abbrev pub is_zero : Sign → Bool
is_zero Sign.zero = true
is_zero _ = false

unfoldable pub hash_compare : List ℕ → List ℕ → Sign
hash_compare a b = buffers_compare a b

unfoldable pub hash_equal : List ℕ → List ℕ → Bool
hash_equal a b = is_zero (hash_compare a b)

unfoldable pub signature_equal : List ℕ → List ℕ → Bool
signature_equal a b = buffers_equal a b

abbrev power : ℕ → ℕ
power ℕ.zero = 1
power (suc n) = 256 * power n

-- A buffer as a number, its first byte the highest.
abbrev pub big_endian : List ℕ → ℕ
big_endian [] = 0
big_endian (x ∷ xs) = x * power (length xs) + big_endian xs

-- The sign of a - b.
abbrev pub sign_of : ℕ → ℕ → Sign
sign_of a b = if ltb a b then minus_one else (if ltb b a then one else Sign.zero)

first_decides : (x y p r s : ℕ) → x < y → r < p → x * p + r < y * p + s
first_decides x y p r s h k = grind arith

big_endian-lt : (xs : List ℕ) → AllBytes xs → big_endian xs < power (length xs)
big_endian-lt [] b = omega arith
big_endian-lt (x ∷ xs) (lt, b) =
    omega (arith, first_decides x 256 (power (length xs)) (big_endian xs) 0 lt (big_endian-lt xs b))

sign_of-lt : (a b : ℕ) → a < b → sign_of a b ≡ minus_one
sign_of-lt a b h = ground arith

sign_of-gt : (a b : ℕ) → b < a → sign_of a b ≡ one
sign_of-gt a b h = ground arith

sign_of-add : (k a b : ℕ) → sign_of (k + a) (k + b) ≡ sign_of a b
sign_of-add k a b = ground arith

compare_numbers :
    (xs ys : List ℕ)
    → length xs ≡ length ys
    → AllBytes xs
    → AllBytes ys
    → buffers_compare xs ys ≡ sign_of (big_endian xs) (big_endian ys)
unfolding buffers_compare
compare_numbers [] [] l b c = refl
compare_numbers [] (y ∷ ys) l b c = absurd (omega arith)
compare_numbers (x ∷ xs) [] l b c = absurd (omega arith)
compare_numbers (x ∷ xs) (y ∷ ys) l (lt, b) (lt', c) =
    let same : length xs ≡ length ys = omega arith in
    let p = power (length xs) in
    let q : power (length ys) ≡ p = ap power (sym same) in
    let ih = compare_numbers xs ys same b c in
    let below = big_endian-lt xs b in
    let below' : big_endian ys < p = omega (arith, big_endian-lt ys c, q) in
    rw q (elim (Bool-cases (ltb x y)) [
      | inl e ↦ rw e (
          sym (
            sign_of-lt (x * p + big_endian xs) (y * p + big_endian ys)
              (first_decides x y p (big_endian xs) (big_endian ys) (ground arith) below)))
      | inr e ↦ (elim (Bool-cases (ltb y x)) [
        | inl f ↦
            rw (e, f)
              (sym (
                sign_of-gt (x * p + big_endian xs) (y * p + big_endian ys)
                  (first_decides y x p (big_endian ys) (big_endian xs) (ground arith) below')))
        | inr f ↦
            let eq : y ≡ x = ground arith in
            rw (e, f, eq) (ih ∙ sym (sign_of-add (x * p) (big_endian xs) (big_endian ys)))
      ])
    ])

compare_zero→eq :
    (xs ys : List ℕ) → length xs ≡ length ys → is_zero (buffers_compare xs ys) ≡ true → xs ≡ ys
unfolding buffers_compare
compare_zero→eq [] [] l h = refl
compare_zero→eq [] (y ∷ ys) l h = absurd (omega arith)
compare_zero→eq (x ∷ xs) [] l h = absurd (omega arith)
compare_zero→eq (x ∷ xs) (y ∷ ys) l h =
    let same : length xs ≡ length ys = omega arith in ground (arith, compare_zero→eq xs ys same)

compare_self : (xs : List ℕ) → is_zero (buffers_compare xs xs) ≡ true
unfolding buffers_compare
compare_self [] = refl
compare_self (x ∷ xs) = ground (arith, compare_self xs)

-- Buffers of the same length are compared as the numbers that they are with their first byte highest;
-- two hashes or two signatures are equal exactly if they are the same bytes.
pub buffers_compare_lem :
    (xs ys : List ℕ)
    → length xs ≡ length ys
    → AllBytes xs
    → AllBytes ys
    → (hash_compare xs ys ≡ sign_of (big_endian xs) (big_endian ys))
      × ((hash_equal xs ys ≡ true) ↔ (xs ≡ ys))
      × ((signature_equal xs ys ≡ true) ↔ (xs ≡ ys))
unfolding hash_compare hash_equal signature_equal buffers_equal
buffers_compare_lem xs ys l b c = (
  compare_numbers xs ys l b c,
  (
    λ h. compare_zero→eq xs ys l h,
    λ e. ap (λ (zs : List ℕ). is_zero (buffers_compare xs zs)) (sym e) ∙ compare_self xs,
  ),
  (λ h. bytes_eq→eq xs ys h, λ e. ap (bytes_eq xs) (sym e) ∙ bytes_eq_self xs),
)
