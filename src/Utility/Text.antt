-- ===== src/Utility/Text.antt =====
-- C strings in buffers: what stands behind the first zero does not matter.
use tol103m_assignment_p.Base.{ℕ, ◌≡◌, refl, arith, List, [], ◌∷◌, ◌++◌}
use tol103m_assignment_p.Cli.Find.{NotIn}
use tol103m_assignment_p.Utility.{c_string}

pub c_string-before : (cs rest : List ℕ) → NotIn 0 cs → c_string (cs ++ (0 ∷ rest)) ≡ cs
c_string-before [] rest n = refl
c_string-before (c ∷ cs) rest (ne, n) = let e = c_string-before cs rest n in ground arith
