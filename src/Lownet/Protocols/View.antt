-- ===== src/Lownet/Protocols/View.antt =====
-- The table as what lownet_get_handler shows of it: a quotient that forgets the order of the entries.
use mathlib.Core.Quot
use mathlib.Core.Quot.{Quot, Quot-set}
use tol103m_assignment_p.Base.{ℕ, ◌+◌, ◌<◌, ◌≡◌, ◌≢◌, refl, sym, ap, ◌∙◌, arith, Option, none, some}
use tol103m_assignment_p.Lownet.Protocols.{Protocols, lownet_register_protocol, lownet_get_handler}
use tol103m_assignment_p.Lownet.Protocols.Registry.{
  IsTable, or_entry, register-IsTable, get_handler-register,
}

abbrev pub SameHandlers : {H : Type 0} → Protocols H → Protocols H → Type 0
SameHandlers t u = (q : ℕ) → lownet_get_handler t q ≡ lownet_get_handler u q

-- A table, up to the handlers that it gives.
abbrev pub View : Type 0 → Type 0
View H = Quot (SameHandlers {H = H})

module _ {H : Type 0} where
  unfoldable pub view : Protocols H → View H
  view t = Quot.mk t

  register-count :
      (t : Protocols H) (p : ℕ) (h : H)
      → t.num_protocols < 9
      → ((lownet_register_protocol t p h).0).num_protocols ≡ t.num_protocols + 1
  unfolding lownet_register_protocol
  register-count t p h room = ground arith

  or_entry-swap :
      (r : Option H) (p q k : ℕ) (h g : H)
      → p ≢ q
      → or_entry
          (or_entry r (record { protocol = p; handler = some h }) k)
          (record { protocol = q; handler = some g })
          k
        ≡ or_entry
            (or_entry r (record { protocol = q; handler = some g }) k)
            (record { protocol = p; handler = some h })
            k
  or_entry-swap none p q k h g ne = ground arith
  or_entry-swap (some f) p q k h g ne = refl

  registered_both :
      (t : Protocols H) (p q k : ℕ) (h g : H)
      → IsTable t
      → t.num_protocols < 9
      → lownet_get_handler (lownet_register_protocol (lownet_register_protocol t p h).0 q g).0 k
        ≡ or_entry
            (or_entry (lownet_get_handler t k) (record { protocol = p; handler = some h }) k)
            (record { protocol = q; handler = some g })
            k
  registered_both t p q k h g v room =
      let one : Protocols H = (lownet_register_protocol t p h).0 in
      let count : one.num_protocols ≡ t.num_protocols + 1 = register-count t p h room in
      (get_handler-register one q g (register-IsTable t p h v) k (omega arith)).1
      ∙ ap (λ (r : Option H). or_entry r (record { protocol = q; handler = some g }) k)
          (get_handler-register t p h v k (omega arith)).1

  -- With two free slots, two protocols that differ can be registered in either order: the tables give
  -- the same handlers.
  pub register_swap :
      (t : Protocols H) (p q : ℕ) (h g : H)
      → IsTable t
      → t.num_protocols < 9
      → p ≢ q
      → view (lownet_register_protocol (lownet_register_protocol t p h).0 q g).0
        ≡ view (lownet_register_protocol (lownet_register_protocol t q g).0 p h).0
  unfolding view
  register_swap t p q h g v room ne = Quot.sound λ k.
      registered_both t p q k h g v room
      ∙ (or_entry-swap (lownet_get_handler t k) p q k h g ne
          ∙ sym (registered_both t q p k g h v room))
