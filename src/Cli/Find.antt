-- ===== src/Cli/Find.antt =====
-- Which command is found.
use tol103m_assignment_p.Base.{
  ℕ, ◌≡◌, ◌≢◌, refl, inl, inr, arith, ap, ◌∙◌, sym, List, [], ◌∷◌, ◌++◌, none, some, true, bytes_eq,
  bytes_eq→eq, bytes_eq_self, Bool-cases,
}
use tol103m_assignment_p.Cli.{Command, find_command, split_at, strtok}

abbrev pub NotIn : ℕ → List ℕ → Type 0
NotIn d [] = Unit {0}
NotIn d (c ∷ cs) = (c ≢ d) × NotIn d cs

module _ {ℓ} {F : Type ℓ} where
  -- No command of the list has the name.
  abbrev pub Unnamed : List ℕ → List (Command F) → Type 0
  Unnamed name [] = Unit {0}
  Unnamed name (c ∷ cs) = (name ≢ c.name) × Unnamed name cs

  find_command-first :
      (name : List ℕ) (before : List (Command F)) (c : Command F) (after : List (Command F))
      → Unnamed name before
      → name ≡ c.name
      → find_command name (before ++ (c ∷ after)) ≡ some c.fun
  unfolding find_command
  find_command-first name [] c after u e =
      let same : bytes_eq name c.name ≡ true = ap (bytes_eq name) (sym e) ∙ bytes_eq_self name in
      rw same refl
  find_command-first name (b ∷ before) c after (ne, u) e =
      elim (Bool-cases (bytes_eq name b.name)) [
        | inl t ↦ absurd (ne (bytes_eq→eq name b.name t))
        | inr f ↦ rw f (find_command-first name before c after u e)
      ]

  find_command-none :
      (name : List ℕ) (cs : List (Command F)) → Unnamed name cs → find_command name cs ≡ none
  unfolding find_command
  find_command-none name [] u = refl
  find_command-none name (b ∷ cs) (ne, u) = elim (Bool-cases (bytes_eq name b.name)) [
    | inl t ↦ absurd (ne (bytes_eq→eq name b.name t))
    | inr f ↦ rw f (find_command-none name cs u)
  ]

  -- A command that no command before it shares its name with is found by that name, whatever follows
  -- it; among the commands before it the name is not found.
  pub find_command_lem :
      (before : List (Command F)) (c : Command F) (after : List (Command F))
      → Unnamed c.name before
      → (find_command c.name (before ++ (c ∷ after)) ≡ some c.fun)
        × (find_command c.name before ≡ none)
  find_command_lem before c after u =
      (find_command-first c.name before c after u refl, find_command-none c.name before u)

pub split_at-token :
    (d : ℕ) (token rest : List ℕ) → NotIn d token → split_at d (token ++ (d ∷ rest)) ≡ (token, rest)
split_at-token d [] rest n = ground arith
split_at-token d (c ∷ token) rest (ne, n) = let e = split_at-token d token rest n in ground arith

split_at-end : (d : ℕ) (token : List ℕ) → NotIn d token → split_at d token ≡ (token, [])
split_at-end d [] n = refl
split_at-end d (c ∷ token) (ne, n) = let e = split_at-end d token n in ground arith

-- strtok returns a non-empty token without the delimiter, with the text behind the delimiter saved.
pub strtok-token :
    (d c : ℕ) (token rest : List ℕ)
    → NotIn d (c ∷ token)
    → strtok d ((c ∷ token) ++ (d ∷ rest)) ≡ some (c ∷ token, rest)
unfolding strtok
strtok-token d c token rest (ne, n) = let e = split_at-token d token rest n in ground arith

pub strtok-end :
    (d c : ℕ) (token : List ℕ) → NotIn d (c ∷ token) → strtok d (c ∷ token) ≡ some (c ∷ token, [])
unfolding strtok
strtok-end d c token (ne, n) = let e = split_at-end d token n in ground arith
