-- ===== src/Queue.antt =====
-- The queues of FreeRTOS between the tasks of managed_components/serial/serial_io.c and
-- managed_components/lownet/lownet.c: xQueueCreate, xQueueSend and xQueueReceive without waiting. They
-- are a parameter, with their documented behaviour as its laws.
pub mod History
use tol103m_assignment_p.Base.{
  ℕ, zero, suc, ◌<◌, ◌≤◌, ◌≡◌, List, [], ◌∷◌, ◌++◌, Bool, true, false, Option, none, some, length,
}

-- A send gives the queue and whether there was room, a receive the first item, or `none`.
pub record MessageQueue (A : Type 0) : Type 1 where
  pub Queue : Type 0
  pub create : Queue
  pub send : Queue → A → Queue × Bool
  pub receive : Queue → Option (A × Queue)

-- First in, first out, with `depth` places; a send to a full queue fails and changes nothing.
pub record IsQueue {A : Type 0} (depth : ℕ) (os : MessageQueue A) : Type 0 where
  pub contents : os.Queue → List A
  pub contents-create : contents os.create ≡ []
  pub send_room :
      (q : os.Queue) (x : A)
      → length (contents q) < depth
      → (contents (os.send q x).0 ≡ contents q ++ (x ∷ [])) × ((os.send q x).1 ≡ true)
  pub send_full :
      (q : os.Queue) (x : A)
      → depth ≤ length (contents q)
      → (contents (os.send q x).0 ≡ contents q) × ((os.send q x).1 ≡ false)
  pub receive_empty : (q : os.Queue) → contents q ≡ [] → os.receive q ≡ none
  pub receive_first :
      (q : os.Queue) (x : A) (xs : List A)
      → contents q ≡ x ∷ xs
      → (rest : os.Queue) × (os.receive q ≡ some (x, rest)) × (contents rest ≡ xs)

-- `while (xQueueReceive(...))`, with fuel: what is received, in order, and the queue.
unfoldable pub drain : {A : Type 0} (os : MessageQueue A) → ℕ → os.Queue → List A × os.Queue
drain os zero q = ([], q)
drain os (suc fuel) q = elim (os.receive q) [
  | none ↦ ([], q)
  | some (x, rest) ↦ (let more = drain os fuel rest in (x ∷ more.0, more.1))
]
