-- ===== src/App/Lines.antt =====
-- Which command a line calls.
use tol103m_assignment_p.Base.{
  ℕ, ◌≡◌, refl, ap, ◌∙◌, List, [], ◌∷◌, ◌++◌, Option, none, some, inl, inr, Option-cases,
}
use tol103m_assignment_p.Cli.{find_command, strtok, token}
use tol103m_assignment_p.Cli.Find.{NotIn, strtok-token, strtok-end}
use tol103m_assignment_p.App.{Function, Reaction, invalid_command, calls, commands, handle_line}

abbrev pub with_argument : Option Function → List ℕ → Option (List ℕ) → Reaction
with_argument none name arg = invalid_command name
with_argument (some f) name arg = calls f arg

handle_line-token :
    (line name rest : List ℕ)
    → strtok b' ' line ≡ some (name, rest)
    → handle_line (b'/' ∷ line)
      ≡ with_argument (find_command name commands) name (token (strtok 10 rest))
unfolding handle_line
handle_line-token line name rest e = elim (Option-cases (find_command name commands)) [
  | inl f ↦ rw (e, f) refl
  | inr (g, f) ↦ rw (e, f) refl
]

strtok_nil : (d : ℕ) → strtok d [] ≡ none
unfolding strtok
strtok_nil d = refl

-- A line "/name" calls the function that the table has for the name, with no argument, and a line
-- "/name argument" calls it with the argument; when the table has no such name, both are invalid. The
-- name is not empty and has no space, the argument is not empty and has no newline.
pub handle_line_lem :
    (c d : ℕ) (name argument : List ℕ)
    → NotIn b' ' (c ∷ name)
    → NotIn 10 (d ∷ argument)
    → let f = find_command (c ∷ name) commands in
      (handle_line (b'/' ∷ (c ∷ name)) ≡ with_argument f (c ∷ name) none)
      × (handle_line (b'/' ∷ ((c ∷ name) ++ (b' ' ∷ (d ∷ argument))))
          ≡ with_argument f (c ∷ name) (some (d ∷ argument)))
handle_line_lem c d name argument n a =
    let f = find_command (c ∷ name) commands in
    (
      handle_line-token (c ∷ name) (c ∷ name) [] (strtok-end b' ' c name n)
          ∙ ap (λ (r : Option (List ℕ × List ℕ)). with_argument f (c ∷ name) (token r))
              (strtok_nil 10),
      handle_line-token ((c ∷ name) ++ (b' ' ∷ (d ∷ argument))) (c ∷ name) (d ∷ argument)
            (strtok-token b' ' c name (d ∷ argument) n)
          ∙ ap (λ (r : Option (List ℕ × List ℕ)). with_argument f (c ∷ name) (token r))
              (strtok-end 10 d argument a),
    )
