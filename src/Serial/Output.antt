-- ===== src/Serial/Output.antt =====
-- What is printed of the lines that are written.
use mathlib.Core.List.{append_assoc}
use native.Mathlib.Numerals.{add-one}
use tol103m_assignment_p.Base.{
  ℕ, zero, suc, ◌+◌, ◌≤◌, ◌≡◌, ◌≢◌, refl, sym, ap, ◌∙◌, subst, arith, inl, inr, List, [], ◌∷◌, ◌++◌,
  Bool, true, false, ltb, if◌then◌else◌, Bool-cases, length, length-take, length-drop, take, drop,
  take-all, take-append, set, copy_over,
}
use tol103m_assignment_p.Cli.Find.{NotIn}
use tol103m_assignment_p.Utility.{c_string}
use tol103m_assignment_p.Utility.Text.{c_string-before}
use tol103m_assignment_p.Serial.{cut_length, zero_buffer, has_prompt, line_buffer, write_message}

-- A line whose first two characters are its own, or whose first decides that it is no prompt.
abbrev pub Decided : List ℕ → Type 0
Decided [] = ⊥
Decided (c ∷ []) = c ≢ b'>'
Decided (c ∷ d ∷ cs) = Unit {0}

-- The format string that printf gets for a line: its first 126 characters, and a newline behind them
-- unless it is a prompt. A % in it is a conversion to printf, which is not modelled.
unfoldable pub printf_format : List ℕ → List ℕ
printf_format line = if has_prompt line then take 126 line else take 126 line ++ (10 ∷ [])

set-behind : (t r : List ℕ) (x v : ℕ) → set (t ++ (x ∷ r)) (length t) v ≡ t ++ (v ∷ r)
set-behind [] r x v = refl
set-behind (c ∷ t) r x v = ap (◌∷◌ c) (set-behind t r x v)

set-behind-next :
    (t r : List ℕ) (x y v : ℕ) → set (t ++ (x ∷ (y ∷ r))) (suc (length t)) v ≡ t ++ (x ∷ (v ∷ r))
set-behind-next [] r x y v = refl
set-behind-next (c ∷ t) r x y v = ap (◌∷◌ c) (set-behind-next t r x y v)

take-short : (n : ℕ) (l : List ℕ) → length l ≤ n → take n l ≡ l
take-short zero [] h = refl
take-short zero (c ∷ l) h = absurd (omega arith)
take-short (suc n) [] h = refl
take-short (suc n) (c ∷ l) h = ap (◌∷◌ c) (take-short n l (omega arith))

take-cut_length : (l : List ℕ) → take (cut_length (length l)) l ≡ take 126 l
take-cut_length l = elim (Bool-cases (ltb 126 (length l))) [
  | inl e ↦ rw e refl
  | inr e ↦ rw e (take-all (length l) l refl ∙ sym (take-short 126 l (ground arith)))
]

cut_length-le : (n : ℕ) → (cut_length n ≤ 126) × (cut_length n ≤ n)
cut_length-le n = ground arith

NotIn-take : (d n : ℕ) (l : List ℕ) → NotIn d l → NotIn d (take n l)
NotIn-take d zero l h = tt
NotIn-take d (suc n) [] h = tt
NotIn-take d (suc n) (c ∷ l) (ne, h) = (ne, NotIn-take d n l h)

NotIn-append_one : (d c : ℕ) (l : List ℕ) → NotIn d l → c ≢ d → NotIn d (l ++ (c ∷ []))
NotIn-append_one d c [] h ne = (ne, tt)
NotIn-append_one d c (b ∷ l) (ne', h) ne = (ne', NotIn-append_one d c l h ne)

two_more : (l : List ℕ) → 2 ≤ length l → (x : ℕ) × (y : ℕ) × (r : List ℕ) × (l ≡ x ∷ (y ∷ r))
two_more [] h = absurd (omega arith)
two_more (x ∷ []) h = absurd (omega arith)
two_more (x ∷ y ∷ r) h = (x, y, r, refl)

set_zero :
    (t d : List ℕ) (n x y : ℕ) (r : List ℕ)
    → length t ≡ n
    → d ≡ x ∷ (y ∷ r)
    → set (t ++ d) n 0 ≡ t ++ (0 ∷ (y ∷ r))
set_zero t d n x y r whole e = rw e (
    subst (λ (i : ℕ). set (t ++ (x ∷ (y ∷ r))) i 0 ≡ t ++ (0 ∷ (y ∷ r))) whole
      (set-behind t (y ∷ r) x 0))

-- The buffer of a line.
line_buffer_lem :
    (l : List ℕ) → (r : List ℕ) × (line_buffer l ≡ take (cut_length (length l)) l ++ (0 ∷ r))
unfolding line_buffer
line_buffer_lem l =
    let n = cut_length (length l) in
    let (le, le') = cut_length-le (length l) in
    let (x, y, r, e) =
      two_more (drop n zero_buffer) (omega (arith, length-drop n zero_buffer, le)) in
    (y ∷ r, set_zero (take n l) (drop n zero_buffer) n x y r (length-take n l le') e)

has_prompt-append : (l r : List ℕ) → Decided l → has_prompt (l ++ r) ≡ has_prompt l
has_prompt-append [] r h = elim h [ ]
has_prompt-append (c ∷ []) r h = ground arith
has_prompt-append (c ∷ d ∷ l) r h = refl

Decided-take : (l : List ℕ) → Decided l → Decided (take 126 l)
Decided-take [] h = h
Decided-take (c ∷ []) h = h
Decided-take (c ∷ d ∷ l) h = tt

has_prompt-take : (l : List ℕ) → has_prompt (take 126 l) ≡ has_prompt l
has_prompt-take [] = refl
has_prompt-take (c ∷ []) = refl
has_prompt-take (c ∷ d ∷ l) = refl

abbrev finished : Bool → ℕ → List ℕ → List ℕ
finished prompt end buffer =
    if prompt then set buffer end 0 else set (set buffer end 10) (end + 1) 0

finished_lem :
    (prompt : Bool) (t : List ℕ) (x y : ℕ) (r : List ℕ)
    → NotIn 0 t
    → c_string (finished prompt (length t) (t ++ (x ∷ (y ∷ r))))
      ≡ (if prompt then t else t ++ (10 ∷ []))
finished_lem true t x y r h = ap c_string (set-behind t (y ∷ r) x 0) ∙ c_string-before t (y ∷ r) h
finished_lem false t x y r h =
    ap (λ (b : List ℕ). c_string (set b (length t + 1) 0)) (set-behind t (y ∷ r) x 10)
    ∙ (ap (λ (i : ℕ). c_string (set (t ++ (10 ∷ (y ∷ r))) i 0)) (add-one (length t))
        ∙ (ap c_string (set-behind-next t r 10 y 0 ∙ sym (append_assoc t (10 ∷ []) (0 ∷ r)))
            ∙ c_string-before (t ++ (10 ∷ [])) r (NotIn-append_one 0 10 t h (omega arith))))

-- The body of write_message for a length.
abbrev emitted : List ℕ → List ℕ → ℕ → List ℕ
emitted garbage out_msg end =
    let b = copy_over garbage out_msg end in c_string (finished (has_prompt b) end b)

-- The item of the queue that holds `t`.
write_message-append :
    (garbage t r : List ℕ)
    → length garbage ≡ 128
    → length t ≤ 126
    → NotIn 0 t
    → Decided t
    → write_message garbage (t ++ (0 ∷ r)) ≡ (if has_prompt t then t else t ++ (10 ∷ []))
unfolding write_message
write_message-append garbage t r held fits text decided =
    let (x, y, more, e) =
      two_more (drop (length t) garbage) (omega (arith, length-drop (length t) garbage)) in
    let read : c_string (t ++ (0 ∷ r)) ≡ t = c_string-before t r text in
    let n : cut_length (length t) ≡ length t = ground arith in
    let b = t ++ (x ∷ (y ∷ more)) in
    let buffer : copy_over garbage (t ++ (0 ∷ r)) (length t) ≡ b =
      ap (λ (l : List ℕ). take (length t) (t ++ (0 ∷ r)) ++ l) e
      ∙ ap (λ (l : List ℕ). l ++ (x ∷ (y ∷ more))) (take-append (length t) t (0 ∷ r) refl) in
    ap (emitted garbage (t ++ (0 ∷ r))) (ap (λ (l : List ℕ). cut_length (length l)) read ∙ n)
    ∙ (ap (λ (l : List ℕ). c_string (finished (has_prompt l) (length t) l)) buffer
        ∙ (ap (λ (p : Bool). c_string (finished p (length t) b))
              (has_prompt-append t (x ∷ (y ∷ more)) decided)
            ∙ finished_lem (has_prompt t) t x y more text))

-- What serial_write_line queues, the service gives to printf as the line's first 126 characters, with
-- a newline behind them unless the line starts with "> ". The line has no zero, and its first
-- characters decide whether it is such a prompt: it is not empty, and not ">" alone.
pub write_message-line_buffer :
    (garbage line : List ℕ)
    → length garbage ≡ 128
    → NotIn 0 line
    → Decided line
    → write_message garbage (line_buffer line) ≡ printf_format line
unfolding printf_format
write_message-line_buffer garbage line held text decided =
    let t = take 126 line in
    let (le, le') = cut_length-le (length line) in
    let short : length t ≤ 126 =
      subst (λ (l : List ℕ). length l ≤ 126) (take-cut_length line)
        (omega (arith, length-take (cut_length (length line)) line le')) in
    let (r, e) = line_buffer_lem line in
    ap (write_message garbage) (e ∙ ap (λ (l : List ℕ). l ++ (0 ∷ r)) (take-cut_length line))
    ∙ (write_message-append garbage t r held short (NotIn-take 0 126 line text)
          (Decided-take line decided)
        ∙ ap (λ (p : Bool). if p then t else t ++ (10 ∷ [])) (has_prompt-take line))
