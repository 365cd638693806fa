-- ===== src/Tests/Queues.antt =====
-- A list as a queue of `depth` items.
use tol103m_assignment_p.Base.{
  ℕ, ◌<◌, ◌≤◌, ◌≡◌, refl, ap, arith, List, [], ◌∷◌, ◌++◌, Bool, true, false, Option, none, some,
  length, ltb, if◌then◌else◌,
}
use tol103m_assignment_p.Queue.{MessageQueue, IsQueue}

abbrev pub first : {A : Type 0} → List A → Option (A × List A)
first [] = none
first (x ∷ xs) = some (x, xs)

abbrev pub bounded_send : {A : Type 0} → ℕ → List A → A → List A × Bool
bounded_send depth q x = if ltb (length q) depth then (q ++ (x ∷ []), true) else (q, false)

module _ {A : Type 0} (depth : ℕ) (q : List A) (x : A) where
  pub bounded_room :
      length q < depth
      → ((bounded_send depth q x).0 ≡ q ++ (x ∷ [])) × ((bounded_send depth q x).1 ≡ true)
  bounded_room h = ground arith

  pub bounded_full :
      depth ≤ length q → ((bounded_send depth q x).0 ≡ q) × ((bounded_send depth q x).1 ≡ false)
  bounded_full h = ground arith

abbrev pub bounded : (A : Type 0) → ℕ → MessageQueue A
bounded A depth = record { Queue = List A; create = []; send = bounded_send depth; receive = first }

abbrev pub bounded-IsQueue : (A : Type 0) (depth : ℕ) → IsQueue depth (bounded A depth)
bounded-IsQueue A depth = record {
  contents = λ q. q;
  contents-create = refl;
  send_room = bounded_room depth;
  send_full = bounded_full depth;
  receive_empty = λ q e. ap first e;
  receive_first = λ q x xs e. (xs, ap first e, refl);
}
