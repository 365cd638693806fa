-- ===== src/Cli.antt =====
-- managed_components/cli/cli.c, and what the C library's strtok does with one delimiter.
pub mod Find
use tol103m_assignment_p.Base.{
  ℕ, List, [], ◌∷◌, Option, none, some, Bool, ◌==◌, if◌then◌else◌, bytes_eq,
}

-- command_t without its description.
pub record Command {ℓ} (F : Type ℓ) : Type ℓ where
  pub name : List ℕ
  pub fun : F

unfoldable pub find_command {ℓ} : {F : Type ℓ} → List ℕ → List (Command F) → Option F
find_command command [] = none
find_command command (c ∷ cs) =
    let rest = find_command command cs in if bytes_eq command c.name then some c.fun else rest

-- The token up to the next delimiter, and what strtok saves: the text behind that delimiter.
abbrev pub split_at : ℕ → List ℕ → List ℕ × List ℕ
split_at d [] = ([], [])
split_at d (c ∷ cs) = let rest = split_at d cs in if c == d then ([], cs) else (c ∷ rest.0, rest.1)

abbrev pub skip : ℕ → List ℕ → List ℕ
skip d [] = []
skip d (c ∷ cs) = let rest = skip d cs in if c == d then rest else c ∷ cs

-- strtok on a text; `none` is NULL.
unfoldable pub strtok : ℕ → List ℕ → Option (List ℕ × List ℕ)
strtok d text = elim (skip d text) [ [] ↦ none | c ∷ cs ↦ some (split_at d (c ∷ cs)) ]

-- The token alone.
abbrev pub token : Option (List ℕ × List ℕ) → Option (List ℕ)
token none = none
token (some (t, rest)) = some t
