-- ===== src/Lownet/Protocols.antt =====
-- The protocol table of managed_components/lownet/lownet.c: lownet_register_protocol and
-- lownet_get_handler over net_system.protocols and net_system.num_protocols.
pub mod Registry
pub mod View
use tol103m_assignment_p.Base.{
  ℕ, zero, suc, ◌+◌, ◌%◌, List, Option, none, some, ◌==◌, leb, if◌then◌else◌, replicate, get_or,
  set,
}

abbrev pub max_protocols : ℕ
max_protocols = 10

module _ {ℓ} (H : Type ℓ) where
  -- protocol_t; `none` is a NULL handler.
  pub record Entry : Type ℓ where
    pub protocol : ℕ
    pub handler : Option H

  pub record Protocols : Type ℓ where
    pub entries : List Entry
    pub num_protocols : ℕ

module _ {ℓ} {H : Type ℓ} where
  abbrev pub zero_entry : Entry H
  zero_entry = record { protocol = 0; handler = none }

  -- The table after the memset of lownet_init.
  unfoldable pub no_protocols : Protocols H
  no_protocols = record { entries = replicate 10 zero_entry; num_protocols = 0 }

  -- The new table, and the value returned: 0, or 1 when the table is full.
  unfoldable pub lownet_register_protocol : Protocols H → ℕ → H → Protocols H × ℕ
  lownet_register_protocol t protocol handler =
      if leb max_protocols t.num_protocols then (t, 1) else (
        record {
          entries =
              set t.entries t.num_protocols
                (record { protocol = protocol; handler = some handler });
          num_protocols = (t.num_protocols + 1) % 256;
        },
        0,
      )

  -- The loop of lownet_get_handler from index `i`, with the rounds left.
  unfoldable pub handler_from : List (Entry H) → ℕ → ℕ → ℕ → Option H
  handler_from entries protocol zero i = none
  handler_from entries protocol (suc left) i =
      if (get_or entries i zero_entry).protocol == protocol
      then (get_or entries i zero_entry).handler
      else handler_from entries protocol left (i + 1)

  unfoldable pub lownet_get_handler : Protocols H → ℕ → Option H
  unfolding handler_from
  lownet_get_handler t protocol = handler_from t.entries protocol t.num_protocols 0
