-- ===== src/Chat/Tell.antt =====
-- A line for another node.
use tol103m_assignment_p.Base.{
  ℕ, ◌/◌, ◌%◌, ◌<◌, ◌≡◌, ◌≢◌, refl, ap, ap₂, ◌∙◌, arith, List, [], ◌∷◌, ◌++◌, Option, some, ltb,
  if◌then◌else◌, u8,
}
use tol103m_assignment_p.Cli.{strtok, token}
use tol103m_assignment_p.Cli.Find.{NotIn, strtok-token, strtok-end}
use tol103m_assignment_p.Utility.{format_id, hex_char, hex_to_dec, c_string, node_argument}
use tol103m_assignment_p.Utility.Text.{c_string-before}
use tol103m_assignment_p.Utility.Hex.{hex_to_dec-format_id}
use tol103m_assignment_p.Chat.{tells, to_node, tell_command}

-- The digits of format_id.
digits_of : ℕ → List ℕ
digits_of id = if ltb id 16 then hex_char id ∷ [] else hex_char (id / 16) ∷ hex_char (id % 16) ∷ []

digits_of-NotIn : (d id : ℕ) → d < 48 → id < 256 → NotIn d (digits_of id)
unfolding digits_of
digits_of-NotIn d id h lt = ground arith

pub node_argument-format_id :
    (id : ℕ) (rest : List ℕ) → id < 256 → node_argument (format_id id) rest ≡ id
unfolding format_id digits_of
node_argument-format_id id rest lt =
    let e : c_string (digits_of id ++ (0 ∷ rest)) ≡ digits_of id =
      c_string-before (digits_of id) rest (digits_of-NotIn 0 id (omega arith) lt) in
    let whole : u8 id ≡ id = omega arith in
    ap (λ (t : List ℕ). u8 (hex_to_dec t)) e ∙ (ap u8 (hex_to_dec-format_id id lt) ∙ whole)

tell_command-token :
    (args dest rest : List ℕ)
    → strtok b' ' args ≡ some (dest, rest)
    → tell_command (some args) ≡ to_node (node_argument dest rest) (token (strtok 10 rest))
unfolding tell_command
tell_command-token args dest rest e = rw (e, tell_command) refl

to_node-tells : (id : ℕ) (message : List ℕ) → id ≢ 0 → to_node id (some message) ≡ tells message id
to_node-tells id message h = ground arith

-- The line "id message", with a node's id as it is shown and a message without a newline, is a message
-- for that node, if its id is a byte that is not 0.
pub tell_command-format_id :
    (id c : ℕ) (message : List ℕ)
    → id < 256
    → id ≢ 0
    → NotIn 10 (c ∷ message)
    → tell_command (some (format_id id ++ (b' ' ∷ (c ∷ message)))) ≡ tells (c ∷ message) id
tell_command-format_id id c message lt some_node line =
    let text = c ∷ message in
    let args = format_id id ++ (b' ' ∷ text) in
    let split : strtok b' ' args ≡ some (format_id id, text) =
      unfold format_id digits_of in
      strtok-token b' ' b'0' (b'x' ∷ digits_of id) text
        (omega arith, (omega arith, digits_of-NotIn 32 id (omega arith) lt)) in
    tell_command-token args (format_id id) text split
    ∙ (ap₂ (λ (d : ℕ) (t : Option (List ℕ × List ℕ)). to_node d (token t))
          (node_argument-format_id id text lt) (strtok-end 10 c message line)
        ∙ to_node-tells id text some_node)
