-- ===== src/Crane/Action/Drain.antt =====
-- The loop of read_acks that empties the queue.
use tol103m_assignment_p.Base.{
  ℕ, zero, suc, ◌≤◌, ◌≡◌, refl, arith, List, [], ◌∷◌, ◌⊎◌, inl, leb, if◌then◌else◌, length,
}
use tol103m_assignment_p.Crane.Machine.{AckQueue, IsAckQueue, Crane}
use tol103m_assignment_p.Crane.Action.{drain_acks}

-- The number n is the largest of `first` and the list.
abbrev Bounds : ℕ → List ℕ → Type 0
Bounds n [] = Unit {0}
Bounds n (x ∷ xs) = (x ≤ n) × Bounds n xs

abbrev OneOf : ℕ → List ℕ → Type 0
OneOf n [] = ⊥
OneOf n (x ∷ xs) = (n ≡ x) ⊎ OneOf n xs

pub record IsLargest (n first : ℕ) (xs : List ℕ) : Type 0 where
  pub above_first : first ≤ n
  pub above_all : Bounds n xs
  pub among : (n ≡ first) ⊎ OneOf n xs

larger :
    (n first x : ℕ) (xs : List ℕ)
    → IsLargest n (if leb x first then first else x) xs
    → IsLargest n first (x ∷ xs)
larger n first x xs i =
    let a = i.above_first in
    let b = i.above_all in
    let c = i.among in
    record { above_first = ground arith; above_all = ground arith; among = ground arith }

module _ (os : AckQueue) (laws : IsAckQueue os) where
  drain_lem :
      (fuel : ℕ) (c : Crane os.Queue) (seq : ℕ) (xs : List ℕ)
      → laws.contents c.acks ≡ xs
      → length xs ≤ fuel
      → let r = drain_acks os fuel c seq in
        IsLargest r.0 seq xs
        × (laws.contents (r.1).acks ≡ [])
        × (r.1 ≡ record c { acks = (r.1).acks })
  unfolding drain_acks
  drain_lem zero c seq [] e h =
      (record { above_first = omega arith; above_all = tt; among = inl refl }, e, refl)
  drain_lem zero c seq (x ∷ xs) e h = absurd (omega arith)
  drain_lem (suc fuel) c seq [] e h =
      let none' = laws.receive_empty c.acks e in
      rw (none', drain_acks)
        (record { above_first = omega arith; above_all = tt; among = inl refl }, e, refl)
  drain_lem (suc fuel) c seq (x ∷ xs) e h =
      let (rest, got, left) = laws.receive_first c.acks x xs e in
      let (largest, empty, same) =
        drain_lem fuel (record c { acks = rest }) (if leb x seq then seq else x) xs left
          (omega arith) in
      rw (got, drain_acks) (larger _ seq x xs largest, empty, same)

  -- The eight rounds are enough: with at most eight acknowledgements queued, the loop leaves the queue
  -- empty and returns the largest of them and of the one that it starts from; nothing else changes.
  pub drain_acks_lem :
      (c : Crane os.Queue) (seq : ℕ)
      → length (laws.contents c.acks) ≤ 8
      → let r = drain_acks os 8 c seq in
        IsLargest r.0 seq (laws.contents c.acks)
        × (laws.contents (r.1).acks ≡ [])
        × (r.1 ≡ record c { acks = (r.1).acks })
  drain_acks_lem c seq h = drain_lem 8 c seq (laws.contents c.acks) refl h
