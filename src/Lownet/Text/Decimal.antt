-- ===== src/Lownet/Text/Decimal.antt =====
-- What is printed of a number or a time can be read back.
use mathlib.Core.List.{append_assoc}
use tol103m_assignment_p.Base.{
  ℕ, zero, suc, ◌+◌, ◌-◌, ◌*◌, ◌/◌, ◌%◌, ◌<◌, ◌≤◌, ◌≡◌, ◌⊎◌, ◌^◌, refl, ap, ap₂, ◌∙◌, arith, inl,
  inr, List, [], ◌∷◌, ◌++◌, Bool-cases, ltb, length, length-append,
}
use tol103m_assignment_p.Cli.{split_at}
use tol103m_assignment_p.Cli.Find.{NotIn, split_at-token}
use tol103m_assignment_p.Lownet.Time.{Time}
use tol103m_assignment_p.Lownet.Text.{digits, decimal, format_time}

-- The number that digits stand for, behind `acc`.
abbrev pub value : ℕ → List ℕ → ℕ
value acc [] = acc
value acc (c ∷ cs) = value (acc * 10 + (c - b'0')) cs

-- Ten to the power of the fuel.
abbrev pub tens : ℕ → ℕ
tens zero = 1
tens (suc n) = 10 * tens n

value-append_one :
    (acc : ℕ) (cs : List ℕ) (c : ℕ) → value acc (cs ++ (c ∷ [])) ≡ value acc cs * 10 + (c - b'0')
value-append_one acc [] c = refl
value-append_one acc (b ∷ cs) c = value-append_one (acc * 10 + (b - b'0')) cs c

value-digits : (fuel n : ℕ) → n < tens fuel → value 0 (digits fuel n) ≡ n
unfolding digits
value-digits zero n lt = omega arith
value-digits (suc fuel) n lt = elim (Bool-cases (ltb n 10)) [
  | inl e ↦ rw e (omega arith)
  | inr e ↦ rw e (
      value-append_one 0 (digits fuel (n / 10)) (b'0' + n % 10)
      ∙ omega (arith, value-digits fuel (n / 10) (omega arith)))
]

pub length-digits : (fuel n : ℕ) → length (digits fuel n) ≤ fuel
unfolding digits
length-digits zero n = omega arith
length-digits (suc fuel) n = elim (Bool-cases (ltb n 10)) [
  | inl e ↦ rw e (omega arith)
  | inr e ↦ rw e (
      omega (
        arith,
        length-append (digits fuel (n / 10)) ((b'0' + n % 10) ∷ []),
        length-digits fuel (n / 10),
      ))
]

NotIn-append : (d : ℕ) (xs ys : List ℕ) → NotIn d xs → NotIn d ys → NotIn d (xs ++ ys)
NotIn-append d [] ys n m = m
NotIn-append d (x ∷ xs) ys (ne, n) m = (ne, NotIn-append d xs ys n m)

-- A character that is no digit.
digits-NotIn : (d fuel n : ℕ) → (d < 48) ⊎ (57 < d) → NotIn d (digits fuel n)
unfolding digits
digits-NotIn d zero n h = tt
digits-NotIn d (suc fuel) n h = elim (Bool-cases (ltb n 10)) [
  | inl e ↦ rw e (ground arith)
  | inr e ↦ rw e (
      NotIn-append d (digits fuel (n / 10)) ((b'0' + n % 10) ∷ []) (digits-NotIn d fuel (n / 10) h)
        (ground arith))
]

-- A time as it is read off "seconds.thousandths" and an s.
unfoldable pub read_time : List ℕ → Time
read_time text =
    let (seconds, rest) = split_at b'.' text in
    record {
      seconds = value 0 seconds;
      parts = (value 0 (split_at b's' rest).0 * 256 + 999) / 1000;
    }

abbrev time : ℕ → ℕ → Time
time a b = record { seconds = a; parts = b }

read_time-parts :
    (a b rest : List ℕ)
    → NotIn b'.' a
    → NotIn b's' b
    → read_time (a ++ (b'.' ∷ (b ++ (b's' ∷ rest))))
      ≡ time (value 0 a) ((value 0 b * 256 + 999) / 1000)
unfolding read_time
read_time-parts a b rest n m =
    rw (split_at-token b'.' a (b ++ (b's' ∷ rest)) n, split_at-token b's' b rest m) refl

-- A time with 32-bit seconds and 256ths below 256 is printed so that both can be read back, whatever
-- stands behind it: the digits behind the point are a number of thousandths, without leading zeros.
pub read_time-format_time :
    (t : Time) (rest : List ℕ)
    → t.seconds < 2 ^ 32
    → t.parts < 256
    → read_time (format_time t ++ rest) ≡ t
unfolding read_time format_time
read_time-format_time t rest s p =
    let seconds = decimal t.seconds in
    let thousandths = decimal (t.parts * 1000 / 256) in
    let shape : format_time t ++ rest ≡ seconds ++ (b'.' ∷ (thousandths ++ (b's' ∷ rest))) =
      append_assoc seconds (b'.' ∷ (thousandths ++ (b's' ∷ []))) rest
      ∙ ap (λ (l : List ℕ). seconds ++ (b'.' ∷ l)) (append_assoc thousandths (b's' ∷ []) rest) in
    let whole : value 0 seconds ≡ t.seconds = value-digits 10 t.seconds (omega arith) in
    let fraction : value 0 thousandths ≡ t.parts * 1000 / 256 =
      value-digits 10 (t.parts * 1000 / 256) (omega arith) in
    ap read_time shape
    ∙ (read_time-parts seconds thousandths rest (digits-NotIn b'.' 10 t.seconds (inl (omega arith)))
          (digits-NotIn b's' 10 (t.parts * 1000 / 256) (inr (omega arith)))
        ∙ ap₂ (λ (a b : ℕ). time a b) whole (omega (arith, fraction)))
