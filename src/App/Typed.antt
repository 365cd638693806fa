-- ===== src/App/Typed.antt =====
-- A message as a line that is typed, and as the line that the receiver shows.
use tol103m_assignment_p.Base.{
  ℕ, zero, suc, ◌≤◌, ◌<◌, ◌≡◌, refl, arith, List, [], ◌∷◌, ◌++◌, some, Bool, true, false, ◌==◌,
  if◌then◌else◌, length, length-append,
}
use tol103m_assignment_p.Utility.{format_id, c_string}
use tol103m_assignment_p.Cli.{find_command}
use tol103m_assignment_p.Cli.Find.{NotIn}
use tol103m_assignment_p.Chat.{says, shouts}
use tol103m_assignment_p.Chat.Messages.{AllPrintable}
use tol103m_assignment_p.Serial.Input.{padded}
use tol103m_assignment_p.Serial.Output.{Decided}
use tol103m_assignment_p.App
use tol103m_assignment_p.App.{Handler, Function, calls, commands, registered, handle_line}
use tol103m_assignment_p.App.Lines.{handle_line_lem}

-- A line that fits, in the buffer, is read as it was typed.
pub c_string-padded : (n : ℕ) (l : List ℕ) → length l ≤ n → NotIn 0 l → c_string (padded n l) ≡ l
unfolding padded
c_string-padded zero [] h t = refl
c_string-padded zero (c ∷ l) h t = absurd (omega arith)
c_string-padded (suc n) [] h t = refl
c_string-padded (suc n) (c ∷ l) h (ne, t) =
    let e = c_string-padded n l (omega arith) t in ground arith

pub AllPrintable-NotIn : (d : ℕ) (l : List ℕ) → d < 32 → AllPrintable l → NotIn d l
AllPrintable-NotIn d [] h p = tt
AllPrintable-NotIn d (c ∷ l) h (low, high, p) = (omega arith, AllPrintable-NotIn d l h p)

-- "@id text", or "/tell id text".
abbrev pub tell_line : Bool → List ℕ → List ℕ
tell_line true args = b'@' ∷ args
tell_line false args = b'/' ∷ b't' ∷ b'e' ∷ b'l' ∷ b'l' ∷ b' ' ∷ args

handle_line-tell :
    (short : Bool) (d : ℕ) (args : List ℕ)
    → NotIn 10 (d ∷ args)
    → handle_line (tell_line short (d ∷ args)) ≡ calls App.Function.tell_command (some (d ∷ args))
unfolding handle_line find_command commands
handle_line-tell true d args n = refl
handle_line-tell false d args n =
    (handle_line_lem b't' d (b'e' ∷ b'l' ∷ b'l' ∷ []) args
      (omega arith, (omega arith, (omega arith, (omega arith, tt)))) n).1

pub NotIn-format_id : (d id : ℕ) → d < 48 → NotIn d (format_id id)
unfolding format_id
NotIn-format_id d id h = ground arith

NotIn-append : (d : ℕ) (xs ys : List ℕ) → NotIn d xs → NotIn d ys → NotIn d (xs ++ ys)
NotIn-append d [] ys n m = m
NotIn-append d (x ∷ xs) ys (ne, n) m = (ne, NotIn-append d xs ys n m)

-- The characters behind "/tell " or "@".
abbrev pub arguments : ℕ → List ℕ → List ℕ
arguments id text = format_id id ++ (b' ' ∷ text)

pub arguments-NotIn :
    (d id : ℕ) (text : List ℕ) → d < 32 → AllPrintable text → NotIn d (arguments id text)
arguments-NotIn d id text h p =
    NotIn-append d (format_id id) (b' ' ∷ text) (NotIn-format_id d id (omega arith))
      (omega arith, AllPrintable-NotIn d text h p)

pub tell_line-NotIn :
    (d : ℕ) (short : Bool) (args : List ℕ) → d < 32 → NotIn d args → NotIn d (tell_line short args)
tell_line-NotIn d true args h n = (omega arith, n)
tell_line-NotIn d false args h n =
    (omega arith, (omega arith, (omega arith, (omega arith, (omega arith, (omega arith, n))))))

-- What the receiver shows of a text from a node.
abbrev pub message_line : ℕ → ℕ → List ℕ → List ℕ
message_line source destination text =
    format_id source ++ ((if destination == 0xff then shouts else says) ++ text)

pub message_line-Decided : (a b : ℕ) (text : List ℕ) → Decided (message_line a b text)
unfolding format_id
message_line-Decided a b text = tt

between-NotIn : (b : ℕ) → NotIn 0 (if b == 0xff then shouts else says)
between-NotIn b = ground arith

pub message_line-NotIn :
    (a b : ℕ) (text : List ℕ) → AllPrintable text → NotIn 0 (message_line a b text)
message_line-NotIn a b text p =
    NotIn-append 0 (format_id a) ((if b == 0xff then shouts else says) ++ text)
      (NotIn-format_id 0 a (omega arith))
      (NotIn-append 0 (if b == 0xff then shouts else says) text (between-NotIn b)
        (AllPrintable-NotIn 0 text (omega arith) p))

pub length-tell_line :
    (short : Bool) (id : ℕ) (text : List ℕ)
    → length text ≤ length (tell_line short (arguments id text))
length-tell_line true id text = omega (arith, length-append (format_id id) (b' ' ∷ text))
length-tell_line false id text = omega (arith, length-append (format_id id) (b' ' ∷ text))

pub handle_line-arguments :
    (short : Bool) (id : ℕ) (text : List ℕ)
    → AllPrintable text
    → handle_line (tell_line short (arguments id text))
      ≡ calls App.Function.tell_command (some (arguments id text))
handle_line-arguments short id text p =
    let n = arguments-NotIn 10 id text (omega arith) p in
    unfold format_id in handle_line-tell short b'0' _ n
