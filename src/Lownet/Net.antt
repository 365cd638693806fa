-- ===== src/Lownet/Net.antt =====
-- net_system of managed_components/lownet/lownet.c: the identity, the active key and the clock.
-- The handlers' type is a parameter; esp_timer_get_time() is an argument, in microseconds.
pub mod Clock
use tol103m_assignment_p.Base.{
  ℕ, ◌+◌, ◌-◌, ◌*◌, ◌/◌, ◌%◌, List, [], ◌∷◌, Option, none, some, Bool, ◌==◌, not, if◌then◌else◌, u8,
  u32, from_le32, copy_over,
}
use tol103m_assignment_p.DeviceTable.{Identifier}
use tol103m_assignment_p.Lownet.Protocols.{Protocols}
use tol103m_assignment_p.Lownet.Keys.{Key, Keystore, key_size_aes, lownet_keystore_read}
use tol103m_assignment_p.Lownet.Frame.{Frame}
use tol103m_assignment_p.Lownet.Time.{Time}

pub record Net (H : Type 0) : Type 0 where
  pub identity : Identifier
  pub broadcast : Identifier
  pub aes_key : Key
  pub protocols : Protocols H
  pub sync_time : Time
  pub sync_stamp : ℕ

-- The five bytes of a lownet_time_t.
abbrev pub time_of_bytes : List ℕ → Time
time_of_bytes (a ∷ b ∷ c ∷ d ∷ p ∷ rest) = record { seconds = from_le32 a b c d; parts = p }
time_of_bytes _ = record { seconds = 0; parts = 0 }

module _ {H : Type 0} where
  unfoldable pub lownet_get_device_id : Net H → ℕ
  lownet_get_device_id net = net.identity.node

  -- `none` is NULL: no key is active.
  unfoldable pub lownet_get_key : Net H → Option Key
  lownet_get_key net = if net.aes_key.size == 0 then none else some net.aes_key

  -- The bytes are copied into the 32 bytes of net_system's own buffer.
  unfoldable pub lownet_set_key : Net H → Option Key → Net H
  lownet_set_key net none = record net { aes_key = record { bytes = net.aes_key.bytes; size = 0 } }
  lownet_set_key net (some key) = if not (key.size == key_size_aes) then net else record net {
    aes_key = record {
      bytes = copy_over net.aes_key.bytes key.bytes key_size_aes;
      size = key_size_aes;
    };
  }

  unfoldable pub lownet_set_stored_key : Net H → Keystore → ℕ → Net H
  unfolding lownet_set_key lownet_keystore_read
  lownet_set_stored_key net store key_id =
      lownet_set_key net (some (lownet_keystore_read store key_id))

  -- The timer only grows, so it is not below the stamp, and the difference is exact.
  unfoldable pub lownet_get_time : Net H → ℕ → Time
  lownet_get_time net timer =
      if net.sync_time.seconds == 0
      then record { seconds = 0; parts = 0 }
      else (let delta = (timer / 1000 - net.sync_stamp) + net.sync_time.parts * 1000 / 256 in
          record {
            seconds = u32 (net.sync_time.seconds + u32 (delta / 1000));
            parts = u8 (delta % 1000 * 256 / 1000);
          })

  unfoldable pub lownet_set_time : Net H → ℕ → Time → Net H
  lownet_set_time net timer time = record net { sync_time = time; sync_stamp = timer / 1000 }

  unfoldable pub lownet_sync_time : Net H → ℕ → Frame → Net H
  unfolding lownet_get_key
  lownet_sync_time net timer frame = elim (lownet_get_key net) [
    | some k ↦ net
    | none ↦
        if not (frame.len == 5)
        then net
        else record net { sync_time = time_of_bytes frame.payload; sync_stamp = timer / 1000 }
  ]
