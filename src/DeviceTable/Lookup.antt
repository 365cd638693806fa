-- ===== src/DeviceTable/Lookup.antt =====
-- What the two look-ups return.
use tol103m_assignment_p.Base.{
  ℕ, ◌≡◌, refl, ◌⊎◌, inr, arith, List, [], ◌∷◌, Bool, true, ◌&&◌, ◌==◌, bytes_eq, bytes_eq→eq,
}
use tol103m_assignment_p.DeviceTable.{
  Identifier, reserved, device_table, lookup_from, lownet_lookup, lownet_lookup_mac,
}

every : (Identifier → Bool) → List Identifier → Bool
every p [] = true
every p (e ∷ es) = p e && every p es

lookup_from-every :
    (p : Identifier → Bool) (id : ℕ) (es : List Identifier)
    → p reserved ≡ true
    → every p es ≡ true
    → p (lookup_from id es) ≡ true
unfolding every lookup_from
lookup_from-every p id [] h q = h
lookup_from-every p id (e ∷ es) h q = ground (arith, lookup_from-every p id es h)

same_entry : Identifier → Identifier → Bool
same_entry a b = bytes_eq a.mac b.mac && a.node == b.node

same_entry→eq : (a b : Identifier) → same_entry a b ≡ true → a ≡ b
unfolding same_entry
same_entry→eq a b h = ground (arith, bytes_eq→eq a.mac b.mac)

mac_table : every (λ e. same_entry (lownet_lookup_mac e.mac) e) device_table ≡ true
unfolding every same_entry lownet_lookup_mac
mac_table = refl

-- Looking a node up and then its MAC address gives the same entry, for every node id.
pub lookup_mac-lookup : (id : ℕ) → lownet_lookup_mac (lownet_lookup id).mac ≡ lownet_lookup id
unfolding lownet_lookup
lookup_mac-lookup id = same_entry→eq _ _ (
    lookup_from-every (λ e. same_entry (lownet_lookup_mac e.mac) e) id device_table
      (unfold same_entry lownet_lookup_mac in refl) mac_table)

lookup_from_node :
    (id : ℕ) (es : List Identifier)
    → ((lookup_from id es).node ≡ id) ⊎ (lookup_from id es ≡ reserved)
unfolding lookup_from
lookup_from_node id [] = inr refl
lookup_from_node id (e ∷ es) = ground (arith, lookup_from_node id es)

-- A look-up by node id gives an entry of that id, or the reserved entry.
pub lookup_node : (id : ℕ) → ((lownet_lookup id).node ≡ id) ⊎ (lownet_lookup id ≡ reserved)
unfolding lownet_lookup
lookup_node id = lookup_from_node id device_table
