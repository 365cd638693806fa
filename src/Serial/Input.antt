-- ===== src/Serial/Input.antt =====
-- What the reader's buffer holds of the characters that are typed.
use tol103m_assignment_p.Base.{
  ℕ, zero, suc, ◌≤◌, ◌<◌, ◌≡◌, refl, ap, arith, inl, inr, List, [], ◌∷◌, ◌++◌, false, ◌==◌,
  if◌then◌else◌, Bool-cases, length, set,
}
use tol103m_assignment_p.Serial.{zero_buffer}

-- A character in front of the first line.
abbrev pub begin : ℕ → List (List ℕ) × List ℕ → List (List ℕ) × List ℕ
begin c ([], last) = ([], c ∷ last)
begin c (l ∷ ls, last) = ((c ∷ l) ∷ ls, last)

-- The lines of a text, by the newlines in it, and what stands behind the last one.
unfoldable pub lines : List ℕ → List (List ℕ) × List ℕ
lines [] = ([], [])
lines (c ∷ cs) = let rest = lines cs in if c == 10 then ([] ∷ rest.0, rest.1) else begin c rest

-- A line in a buffer of `n` bytes and a zero: cut to `n` bytes, or filled up with zeros.
unfoldable pub padded : ℕ → List ℕ → List ℕ
padded zero l = 0 ∷ []
padded (suc n) [] = 0 ∷ padded n []
padded (suc n) (c ∷ l) = c ∷ padded n l

-- The text with the line at its end finished.
abbrev pub finish : List (List ℕ) × List ℕ → List (List ℕ) × List ℕ
finish (ls, last) = (ls ++ (last ∷ []), [])

abbrev pub extend : ℕ → List (List ℕ) × List ℕ → List (List ℕ) × List ℕ
extend c (ls, last) = (ls, last ++ (c ∷ []))

finish-begin : (c : ℕ) (p : List (List ℕ) × List ℕ) → begin c (finish p) ≡ finish (begin c p)
finish-begin c ([], last) = refl
finish-begin c (l ∷ ls, last) = refl

extend-begin : (b c : ℕ) (p : List (List ℕ) × List ℕ) → begin b (extend c p) ≡ extend c (begin b p)
extend-begin b c ([], last) = refl
extend-begin b c (l ∷ ls, last) = refl

pub lines-newline : (cs : List ℕ) → lines (cs ++ (10 ∷ [])) ≡ finish (lines cs)
unfolding lines
lines-newline [] = refl
lines-newline (c ∷ cs) = elim (Bool-cases (c == 10)) [
  | inl e ↦ rw (e, lines-newline cs) refl
  | inr e ↦ rw (e, lines-newline cs) (finish-begin c (lines cs))
]

pub lines-char :
    (cs : List ℕ) (c : ℕ) → (c == 10) ≡ false → lines (cs ++ (c ∷ [])) ≡ extend c (lines cs)
unfolding lines
lines-char [] c h = rw h refl
lines-char (b ∷ cs) c h = elim (Bool-cases (b == 10)) [
  | inl e ↦ rw (e, lines-char cs c h) refl
  | inr e ↦ rw (e, lines-char cs c h) (extend-begin b c (lines cs))
]

pub padded-empty : padded 127 [] ≡ zero_buffer
unfolding padded
padded-empty = refl

pub padded-char :
    (n : ℕ) (l : List ℕ) (c : ℕ)
    → length l < n
    → set (padded n l) (length l) c ≡ padded n (l ++ (c ∷ []))
unfolding padded
padded-char zero l c h = absurd (omega arith)
padded-char (suc n) [] c h = refl
padded-char (suc n) (b ∷ l) c h = ap (◌∷◌ b) (padded-char n l c (omega arith))

pub padded-full :
    (n : ℕ) (l : List ℕ) (c : ℕ) → n ≤ length l → padded n (l ++ (c ∷ [])) ≡ padded n l
unfolding padded
padded-full zero l c h = refl
padded-full (suc n) [] c h = absurd (omega arith)
padded-full (suc n) (b ∷ l) c h = ap (◌∷◌ b) (padded-full n l c (omega arith))
