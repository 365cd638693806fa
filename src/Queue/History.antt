-- ===== src/Queue/History.antt =====
-- What comes out of a queue is what was put in, in order, less what was refused.
use mathlib.Core.List.{Sublistᴰ, append_assoc, append-nil, map-append}
use mathlib.Core.List.Sublistᴰ
use tol103m_assignment_p.Base.{
  ℕ, zero, suc, ◌+◌, ◌≤◌, ◌<◌, ◌≡◌, refl, sym, ap, ◌∙◌, subst, ◌⊎◌, inl, inr, arith, dec_lt, List,
  [], ◌∷◌, ◌++◌, map, Bool, true, false, length, length-append,
}
use tol103m_assignment_p.Queue.{MessageQueue, IsQueue, drain}

-- `sent` were offered to the queue in this order, `got` were taken from it, `held` are still in it and
-- `dropped` were refused, none of them among the first `depth`.
pub record IsHistory {A : Type 0} (depth : ℕ) (sent got held : List A) (dropped : ℕ) : Type 0 where
  pub ordered : Sublistᴰ (got ++ held) sent
  pub counted : length got + length held + dropped ≡ length sent
  pub lossless : (got ++ held ≡ sent) ⊎ ((0 < dropped) × (depth < length sent))

module _ {A : Type 0} where
  pub IsHistory-start : {depth : ℕ} → IsHistory {A = A} depth [] [] [] 0
  IsHistory-start = record { ordered = Sublistᴰ.slnil; counted = omega arith; lossless = inl refl }

  pub IsHistory-kept :
      {depth : ℕ} {sent got held : List A} {dropped : ℕ} (x : A)
      → IsHistory depth sent got held dropped
      → IsHistory depth (sent ++ (x ∷ [])) got (held ++ (x ∷ [])) dropped
  IsHistory-kept {depth} {sent} {got} {held} {dropped} x h = record {
    ordered =
        subst (λ (l : List A). Sublistᴰ l (sent ++ (x ∷ []))) (append_assoc got held (x ∷ []))
          (Sublistᴰ.append h.ordered (Sublistᴰ.refl (x ∷ [])));
    counted = omega (arith, h.counted, length-append held (x ∷ []), length-append sent (x ∷ []));
    lossless = elim (h.lossless) [
      | inl e ↦ inl (sym (append_assoc got held (x ∷ [])) ∙ ap (λ (l : List A). l ++ (x ∷ [])) e)
      | inr (lost, late) ↦ inr (lost, omega (arith, length-append sent (x ∷ [])))
    ];
  }

  pub IsHistory-refused :
      {depth : ℕ} {sent got held : List A} {dropped : ℕ} (x : A)
      → IsHistory depth sent got held dropped
      → depth ≤ length held
      → IsHistory depth (sent ++ (x ∷ [])) got held (dropped + 1)
  IsHistory-refused {depth} {sent} {got} {held} {dropped} x h full = record {
    ordered =
        subst (λ (l : List A). Sublistᴰ l (sent ++ (x ∷ []))) (append-nil (got ++ held))
          (Sublistᴰ.append h.ordered (Sublistᴰ.nil-sublist (x ∷ [])));
    counted = omega (arith, h.counted, length-append sent (x ∷ []));
    lossless = inr (omega arith, omega (arith, h.counted, length-append sent (x ∷ [])));
  }

  pub IsHistory-taken :
      {depth : ℕ} {sent got held : List A} {dropped : ℕ} (x : A)
      → IsHistory depth sent got (x ∷ held) dropped
      → IsHistory depth sent (got ++ (x ∷ [])) held dropped
  IsHistory-taken {depth} {sent} {got} {held} {dropped} x h = record {
    ordered =
        subst (λ (l : List A). Sublistᴰ l sent) (sym (append_assoc got (x ∷ []) held)) h.ordered;
    counted = omega (arith, h.counted, length-append got (x ∷ []));
    lossless = elim (h.lossless) [
      | inl e ↦ inl (append_assoc got (x ∷ []) held ∙ e)
      | inr some_lost ↦ inr some_lost
    ];
  }

module _ {A : Type 0} where
  pub IsHistory-all :
      {depth : ℕ} {sent got held : List A} {dropped : ℕ}
      → IsHistory depth sent got held dropped
      → IsHistory depth sent (got ++ held) [] dropped
  IsHistory-all {depth} {sent} {got} {held} h = record {
    ordered = subst (λ (l : List A). Sublistᴰ l sent) (sym (append-nil (got ++ held))) h.ordered;
    counted = omega (arith, h.counted, length-append got held);
    lossless = elim (h.lossless) [
      | inl e ↦ inl (append-nil (got ++ held) ∙ e)
      | inr some_lost ↦ inr some_lost
    ];
  }

module _ {A : Type 0} where
  -- One queue behind another.
  pub IsHistory-both :
      {depth : ℕ} {sent between got held waiting : List A} {lost dropped : ℕ}
      → IsHistory depth sent between waiting lost
      → IsHistory depth between got held dropped
      → IsHistory depth sent got (held ++ waiting) (lost + dropped)
  IsHistory-both {depth} {sent} {between} {got} {held} {waiting} h k = record {
    ordered =
        Sublistᴰ.trans
          (subst (λ (l : List A). Sublistᴰ l (between ++ waiting)) (append_assoc got held waiting)
            (Sublistᴰ.append k.ordered (Sublistᴰ.refl waiting)))
          h.ordered;
    counted = omega (arith, h.counted, k.counted, length-append held waiting);
    lossless = elim (h.lossless) [
      | inl e ↦ (elim (k.lossless) [
        | inl e' ↦
            inl (sym (append_assoc got held waiting) ∙ (ap (λ (l : List A). l ++ waiting) e' ∙ e))
        | inr (lost, late) ↦ inr (omega arith, omega (arith, h.counted))
      ])
      | inr (lost, late) ↦ inr (omega arith, late)
    ];
  }

module _ {A B : Type 0} (f : A → B) where
  Sublistᴰ-map : {xs ys : List A} → Sublistᴰ xs ys → Sublistᴰ (map f xs) (map f ys)
  Sublistᴰ-map Sublistᴰ.slnil = Sublistᴰ.slnil
  Sublistᴰ-map (Sublistᴰ.cons s) = Sublistᴰ.cons (Sublistᴰ-map s)
  Sublistᴰ-map (Sublistᴰ.cons-cons e s) = Sublistᴰ.cons-cons (ap f e) (Sublistᴰ-map s)

  pub length-map : (xs : List A) → length (map f xs) ≡ length xs
  length-map [] = refl
  length-map (x ∷ xs) = ap suc (length-map xs)

  pub IsHistory-map :
      {depth : ℕ} {sent got held : List A} {dropped : ℕ}
      → IsHistory depth sent got held dropped
      → IsHistory depth (map f sent) (map f got) (map f held) dropped
  IsHistory-map {depth} {sent} {got} {held} h = record {
    ordered =
        subst (λ (l : List B). Sublistᴰ l (map f sent)) (map-append f got held)
          (Sublistᴰ-map h.ordered);
    counted = omega (arith, h.counted, length-map got, length-map held, length-map sent);
    lossless = elim (h.lossless) [
      | inl e ↦ inl (sym (map-append f got held) ∙ ap (map f) e)
      | inr (lost, late) ↦ inr (lost, omega (arith, length-map sent))
    ];
  }

-- One more if the send was refused.
abbrev pub refusals : Bool → ℕ
refusals true = 0
refusals false = 1

module _ {A : Type 0} {depth : ℕ} (os : MessageQueue A) (laws : IsQueue depth os) where
  pub send-IsHistory :
      {sent got : List A} {dropped : ℕ} (q : os.Queue) (x : A)
      → IsHistory depth sent got (laws.contents q) dropped
      → IsHistory depth
          (sent ++ (x ∷ []))
          got
          (laws.contents (os.send q x).0)
          (dropped + refusals (os.send q x).1)
  send-IsHistory {sent} {got} {dropped} q x h = elim (dec_lt (length (laws.contents q)) depth) [
    | yes room ↦
        (let (e, r) = laws.send_room q x room in
          rw (e, r)
            (subst
              (λ (n : ℕ). IsHistory depth (sent ++ (x ∷ [])) got (laws.contents q ++ (x ∷ [])) n)
              (omega arith) (IsHistory-kept x h)))
    | no full ↦
        (let (e, r) = laws.send_full q x (omega arith) in
          rw (e, r) (IsHistory-refused x h (omega arith)))
  ]

  -- The same for what becomes of the items behind the queue.
  pub send-IsHistory-map :
      {B : Type 0} (f : A → B) {sent got : List B} {dropped : ℕ} (q : os.Queue) (x : A)
      → IsHistory depth sent got (map f (laws.contents q)) dropped
      → IsHistory depth
          (sent ++ (f x ∷ []))
          got
          (map f (laws.contents (os.send q x).0))
          (dropped + refusals (os.send q x).1)
  send-IsHistory-map f {sent} {got} {dropped} q x h =
      elim (dec_lt (length (laws.contents q)) depth) [
        | yes room ↦
            (let (e, r) = laws.send_room q x room in
              rw (e, r, map-append f (laws.contents q) (x ∷ []))
                (subst
                  (λ (n : ℕ).
                    IsHistory depth (sent ++ (f x ∷ [])) got (map f (laws.contents q) ++ (f x ∷ []))
                      n)
                  (omega arith) (IsHistory-kept (f x) h)))
        | no full ↦
            (let (e, r) = laws.send_full q x (omega arith) in
              rw (e, r) (IsHistory-refused (f x) h (omega (arith, length-map f (laws.contents q)))))
      ]

  pub send-le :
      (q : os.Queue) (x : A)
      → length (laws.contents q) ≤ depth
      → length (laws.contents (os.send q x).0) ≤ depth
  send-le q x h = elim (dec_lt (length (laws.contents q)) depth) [
    | yes room ↦
        rw (laws.send_room q x room).0 (omega (arith, length-append (laws.contents q) (x ∷ [])))
    | no full ↦ rw (laws.send_full q x (omega arith)).0 h
  ]

  drain_from :
      (fuel : ℕ) (q : os.Queue) (xs : List A)
      → laws.contents q ≡ xs
      → length xs ≤ fuel
      → ((drain os fuel q).0 ≡ xs) × (laws.contents (drain os fuel q).1 ≡ [])
  unfolding drain
  drain_from zero q [] e h = (refl, e)
  drain_from zero q (x ∷ xs) e h = absurd (omega arith)
  drain_from (suc fuel) q [] e h =
      let none_left = laws.receive_empty q e in rw (none_left, drain) (refl, e)
  drain_from (suc fuel) q (x ∷ xs) e h =
      let (rest, first, e') = laws.receive_first q x xs e in
      let (taken, emptied) = drain_from fuel rest xs e' (omega arith) in
      rw (first, drain) (ap (◌∷◌ x) taken, emptied)

  -- A loop of receives with as much fuel as the queue has items empties it, in order.
  pub drain_lem :
      (fuel : ℕ) (q : os.Queue)
      → length (laws.contents q) ≤ fuel
      → ((drain os fuel q).0 ≡ laws.contents q) × (laws.contents (drain os fuel q).1 ≡ [])
  drain_lem fuel q h = drain_from fuel q (laws.contents q) refl h

  -- All that is held is taken.
  pub drain-IsHistory :
      (fuel : ℕ) {sent got : List A} {dropped : ℕ} (q : os.Queue)
      → length (laws.contents q) ≤ fuel
      → IsHistory depth sent got (laws.contents q) dropped
      → IsHistory depth sent
          (got ++ (drain os fuel q).0)
          (laws.contents (drain os fuel q).1)
          dropped
  drain-IsHistory fuel q le h =
      let (taken, emptied) = drain_lem fuel q le in rw (taken, emptied) (IsHistory-all h)
