-- ===== src/Lownet/Protocols/Registry.antt =====
-- The table as a map: what a registration adds, and what it leaves alone.
use native.Mathlib.Numerals.{add-one}
use tol103m_assignment_p.Base.{
  ℕ, zero, suc, ◌+◌, ◌≤◌, ◌<◌, ◌≡◌, refl, ◌∙◌, ap, ap₂, subst, arith, dec_lt, List, [], ◌∷◌, Option,
  none, some, ◌==◌, if◌then◌else◌, get_or, set, length, length-set,
}
use tol103m_assignment_p.Lownet.Protocols.{
  Entry, Protocols, zero_entry, no_protocols, lownet_register_protocol, handler_from,
  lownet_get_handler,
}

module _ {ℓ} {H : Type ℓ} where
  -- Ten slots, of which the first `num_protocols` are in use.
  pub record IsTable (t : Protocols H) : Type ℓ where
    pub slots : length t.entries ≡ 10
    pub used : t.num_protocols ≤ 10
    pub handled :
        (i : ℕ) → i < t.num_protocols → (g : H) × ((get_or t.entries i zero_entry).handler ≡ some g)

  get_or-set_self :
      (es : List (Entry H)) (i : ℕ) (e d : Entry H) → i < length es → get_or (set es i e) i d ≡ e
  get_or-set_self [] i e d h = absurd (omega arith)
  get_or-set_self (x ∷ es) zero e d h = refl
  get_or-set_self (x ∷ es) (suc i) e d h = get_or-set_self es i e d (omega arith)

  get_or-set_before :
      (es : List (Entry H)) (i j : ℕ) (e d : Entry H)
      → j < i
      → get_or (set es i e) j d ≡ get_or es j d
  get_or-set_before [] i j e d h = refl
  get_or-set_before (x ∷ es) zero j e d h = absurd (omega arith)
  get_or-set_before (x ∷ es) (suc i) zero e d h = refl
  get_or-set_before (x ∷ es) (suc i) (suc j) e d h = get_or-set_before es i j e d (omega arith)

  -- A scan that stops before the slot written to does not see it.
  scan_before :
      (es : List (Entry H)) (q n : ℕ) (e : Entry H) (left i : ℕ)
      → i + left ≤ n
      → handler_from (set es n e) q left i ≡ handler_from es q left i
  unfolding handler_from
  scan_before es q n e zero i h = refl
  scan_before es q n e (suc left) i h =
      rw
        (
          get_or-set_before es n i e zero_entry (omega arith),
          scan_before es q n e left (i + 1) (omega arith),
        )
        refl

  -- The result of a scan, with one slot more behind it.
  abbrev pub or_entry : Option H → Entry H → ℕ → Option H
  or_entry (some g) e q = some g
  or_entry none e q = if e.protocol == q then e.handler else none

  scan_more :
      (es : List (Entry H)) (q left i j : ℕ)
      → i + left ≡ j
      → ((k : ℕ) → k < j → (g : H) × ((get_or es k zero_entry).handler ≡ some g))
      → handler_from es q (suc left) i
        ≡ or_entry (handler_from es q left i) (get_or es j zero_entry) q
  unfolding handler_from
  scan_more es q zero i j e hs = let e' : i ≡ j = omega arith in rw e' refl
  scan_more es q (suc left) i j e hs =
      ground (arith, hs i (omega arith), scan_more es q left (i + 1) j (omega arith) hs)

  module _ (t : Protocols H) (p : ℕ) (h : H) (v : IsTable t) where
    added : Entry H
    added = record { protocol = p; handler = some h }

    after_added : Protocols H
    after_added = record {
      entries = set t.entries t.num_protocols added;
      num_protocols = t.num_protocols + 1;
    }

    register_room : t.num_protocols < 10 → lownet_register_protocol t p h ≡ (after_added, 0)
    unfolding lownet_register_protocol after_added added
    register_room room = ground arith

    register_full : 10 ≤ t.num_protocols → lownet_register_protocol t p h ≡ (t, 1)
    unfolding lownet_register_protocol
    register_full full = ground arith

    handled_added :
        t.num_protocols < 10
        → (i : ℕ) → i < t.num_protocols + 1
        → (g : H) × ((get_or (set t.entries t.num_protocols added) i zero_entry).handler ≡ some g)
    unfolding added
    handled_added room i lt = elim (dec_lt i t.num_protocols) [
      | yes before ↦
          let (g, e) = v.handled i before in
          (
            g,
            ap (λ (x : Entry H). x.handler)
                  (get_or-set_before t.entries t.num_protocols i added zero_entry before)
                ∙ e,
          )
      | no last ↦
          let same : t.num_protocols ≡ i = omega arith in
          (
            h,
            ap (λ (x : Entry H). x.handler)
                (subst (λ k. get_or (set t.entries t.num_protocols added) k zero_entry ≡ added) same
                  (get_or-set_self t.entries t.num_protocols added zero_entry
                    (omega (arith, v.slots)))),
          )
    ]

    after_added-IsTable : t.num_protocols < 10 → IsTable after_added
    unfolding after_added
    after_added-IsTable room = record {
      slots = length-set t.entries t.num_protocols added ∙ v.slots;
      used = omega arith;
      handled = handled_added room;
    }

    -- Registration keeps the table within its array, with a handler in every slot in use.
    pub register-IsTable : IsTable (lownet_register_protocol t p h).0
    register-IsTable = elim (dec_lt t.num_protocols 10) [
      | yes room ↦ rw (register_room room) (after_added-IsTable room)
      | no full ↦ rw (register_full (omega arith)) v
    ]

    scan_added :
        t.num_protocols < 10
        → (q : ℕ)
        → handler_from (set t.entries t.num_protocols added) q (suc t.num_protocols) 0
          ≡ or_entry (handler_from t.entries q t.num_protocols 0) added q
    scan_added room q =
        scan_more (set t.entries t.num_protocols added) q t.num_protocols 0 t.num_protocols
          (omega arith) (λ k lt. handled_added room k (omega arith))
        ∙ ap₂ (λ r e. or_entry r e q)
            (scan_before t.entries q t.num_protocols added t.num_protocols 0 (omega arith))
            (get_or-set_self t.entries t.num_protocols added zero_entry (omega (arith, v.slots)))

    -- With a free slot a registration succeeds; then it answers for its protocol, unless an earlier
    -- entry does, and every other protocol keeps the handler it had.
    pub get_handler-register :
        (q : ℕ)
        → t.num_protocols < 10
        → ((lownet_register_protocol t p h).1 ≡ 0)
          × (lownet_get_handler (lownet_register_protocol t p h).0 q
              ≡ or_entry (lownet_get_handler t q) (record { protocol = p; handler = some h }) q)
    unfolding lownet_get_handler after_added
    get_handler-register q room = rw (register_room room) (
      refl,
      ap (λ n. handler_from (set t.entries t.num_protocols added) q n 0) (add-one t.num_protocols)
          ∙ unfold added in scan_added room q,
    )

  pub no_protocols-IsTable : IsTable no_protocols
  unfolding no_protocols
  no_protocols-IsTable = record {
    slots = refl;
    used = omega arith;
    handled = λ i lt. absurd (omega arith);
  }
