-- ===== src/Lownet/Start/Outcomes.antt =====
-- What lownet_init leaves, on each of its ways.
use tol103m_assignment_p.Base.{
  ℕ, ◌+◌, ◌≡◌, ◌≢◌, refl, ◌⊎◌, inl, inr, ◌↔◌, arith, Bool, true, false, ◌||◌,
}
use tol103m_assignment_p.DeviceTable.{lownet_lookup, lownet_lookup_mac}
use tol103m_assignment_p.Lownet.Keys.{
  initial_keystore, empty_keystore, lownet_keystore_free, Keystore, lownet_keystore_init,
}
use tol103m_assignment_p.Lownet.Protocols.{no_protocols}
use tol103m_assignment_p.Lownet.Start.{
  Esp, System, Outcome, already_initialized, no_decrypt_queue, aborted, no_esp_now, no_events,
  service_error, timed_out, ready, local_mac, count, zero_net, power_on, service_start, waited,
  late, lownet_init,
}

-- What lownet_init looks at succeeds, the service's task is there and done in time, and the device
-- table has the address in local_mac.
pub record Succeeds (esp : Esp) : Type 0 where
  pub prepared :
      (esp.decrypt_queue ≡ true) × (esp.checks ≡ true) × (esp.esp_now ≡ true) × (esp.events ≡ true)
  pub served :
      (esp.service_task ≡ true) × (esp.inbound ≡ true) × (esp.peer ≡ true) × (esp.in_time ≡ true)
  pub known : (lownet_lookup_mac (local_mac esp)).node ≢ 0

broadcast_node : (lownet_lookup 0xff).node ≡ 0xff
unfolding lownet_lookup
broadcast_node = refl

-- The failures after which net_initialized is 0 again; one of them by a reset.
abbrev pub is_retryable : Outcome → Bool
is_retryable aborted = true
is_retryable service_error = true
is_retryable timed_out = true
is_retryable _ = false

keystore_init-closed :
    (k : Keystore)
    → k.keystore_init ≡ false
    → lownet_keystore_init k ≡ lownet_keystore_init empty_keystore
unfolding lownet_keystore_init
keystore_init-closed k e = ground arith

-- What the start can leave of a system `s`.
module _ {H : Type 0} where
  -- A node that works: its identity is the table's, it has no key, no protocol and the two keys stored.
  -- The decryption's task and the callback are there if they could be.
  pub record Up (esp : Esp) (s s' : System H) : Type 0 where
    pub initialized : s'.net_initialized ≡ true
    pub identity : s'.net.identity ≡ lownet_lookup_mac (local_mac esp)
    pub broadcast : s'.net.broadcast.node ≡ 0xff
    pub no_key : s'.net.aes_key.size ≡ 0
    pub protocols : s'.net.protocols ≡ no_protocols
    pub keystore : s'.keystore ≡ initial_keystore
    pub decrypt_tasks : s'.decrypt_tasks ≡ s.decrypt_tasks + count esp.decrypt_task
    pub service_tasks : s'.service_tasks ≡ s.service_tasks + 1
    pub receives : s'.receives ≡ (s.receives || esp.callback)

  -- A start that was given up: net_initialized is 0 again and the key store closed, but the
  -- decryption's task is left, if it was created, and `left` tasks of the service.
  pub record Down (esp : Esp) (left : ℕ) (s s' : System H) : Type 0 where
    pub initialized : s'.net_initialized ≡ false
    pub no_key : s'.net.aes_key.size ≡ 0
    pub protocols : s'.net.protocols ≡ no_protocols
    pub keystore : (s'.keystore).keystore_init ≡ false
    pub decrypt_tasks : s'.decrypt_tasks ≡ s.decrypt_tasks + count esp.decrypt_task
    pub service_tasks : s'.service_tasks ≡ s.service_tasks + left

  -- Nothing was started, and net_initialized is left at 1.
  pub record Stuck (s s' : System H) : Type 0 where
    pub initialized : s'.net_initialized ≡ true
    pub nobody : s'.net.identity.node ≡ 0
    pub keystore : s'.keystore ≡ s.keystore
    pub decrypt_tasks : s'.decrypt_tasks ≡ s.decrypt_tasks
    pub service_tasks : s'.service_tasks ≡ s.service_tasks
    pub receives : s'.receives ≡ s.receives

  -- By outcome.
  abbrev pub After : Outcome → Esp → System H → System H → Type 0
  After already_initialized esp s s' = ⊥
  After no_decrypt_queue esp s s' = Stuck s s'
  After aborted esp s s' = s' ≡ power_on
  After no_esp_now esp s s' = Stuck s s'
  After no_events esp s s' = Stuck s s'
  After service_error esp s s' = Down esp 0 s s'
  After timed_out esp s s' = Down esp (count esp.service_task) s s'
  After ready esp s s' = Up esp s s'

module _ {H : Type 0} (esp : Esp) (s : System H) (fresh : s.net_initialized ≡ false) where
  -- The first lownet_init ends with a node that is ready exactly if the calls whose results it looks
  -- at succeed, the service's task is created and ready in time, and the device table has the address
  -- in local_mac. Nothing else counts: not whether the decryption's task is created, the address is
  -- read into local_mac, or the callback for received data is registered.
  pub init-ready_iff : ((lownet_init esp s).1 ≡ ready) ↔ Succeeds esp
  unfolding lownet_init service_start waited late
  init-ready_iff =
      let b = broadcast_node in
      (
        λ h. record { prepared = ground arith; served = ground arith; known = ground arith },
        λ a. let p = a.prepared in let q = a.served in let k = a.known in ground arith,
      )

  init-Up :
      s.keystore.keystore_init ≡ false
      → (lownet_init esp s).1 ≡ ready
      → Up esp s (lownet_init esp s).0
  unfolding lownet_init service_start zero_net initial_keystore waited late
  init-Up closed h =
      let b = broadcast_node in let k = keystore_init-closed s.keystore closed in ground arith

  init-Down_error : (lownet_init esp s).1 ≡ service_error → Down esp 0 s (lownet_init esp s).0
  unfolding lownet_init service_start waited late zero_net lownet_keystore_free
  init-Down_error h = ground arith

  init-Down_late :
      (lownet_init esp s).1 ≡ timed_out → Down esp (count esp.service_task) s (lownet_init esp s).0
  unfolding lownet_init service_start waited late zero_net lownet_keystore_free
  init-Down_late h = ground arith

  init-Stuck :
      (((lownet_init esp s).1 ≡ no_decrypt_queue)
        ⊎ (((lownet_init esp s).1 ≡ no_esp_now) ⊎ ((lownet_init esp s).1 ≡ no_events)))
      → Stuck s (lownet_init esp s).0
  unfolding lownet_init service_start zero_net waited late
  init-Stuck h = ground arith

  init-reset : (lownet_init esp s).1 ≡ aborted → (lownet_init esp s).0 ≡ power_on
  unfolding lownet_init service_start waited late
  init-reset h = ground arith

  init-first : (lownet_init esp s).1 ≢ already_initialized
  unfolding lownet_init service_start waited late
  init-first h = ground arith

  -- What the first lownet_init leaves, if the key store was not open. After success: a node that works,
  -- with a decryption task and the callback if these could be had. After an error of the service:
  -- net_initialized at 0 and a closed key store, with no task of the service added, but one of the
  -- decryption, if it was created. After a timeout: the same, with the service's task added, too, if it
  -- was created. After a failure under ESP_ERROR_CHECK: the memory of a chip that was reset. After any
  -- other failure: net_initialized at 1, no identity, and neither the key store nor the tasks nor the
  -- callback changed.
  pub init_leaves :
      s.keystore.keystore_init ≡ false → After (lownet_init esp s).1 esp s (lownet_init esp s).0
  init_leaves closed = by_outcome (lownet_init esp s).1 refl
    where
      by_outcome : (o : Outcome) → (lownet_init esp s).1 ≡ o → After o esp s (lownet_init esp s).0
      by_outcome already_initialized e = absurd (init-first e)
      by_outcome no_decrypt_queue e = init-Stuck (inl e)
      by_outcome aborted e = init-reset e
      by_outcome no_esp_now e = init-Stuck (inr (inl e))
      by_outcome no_events e = init-Stuck (inr (inr e))
      by_outcome service_error e = init-Down_error e
      by_outcome timed_out e = init-Down_late e
      by_outcome ready e = init-Up closed e

  -- A second lownet_init refuses to run exactly if the first one succeeded or could not make a queue,
  -- start ESP-NOW or make the event group; after an error or a timeout of the service, and on the chip
  -- that a failure under ESP_ERROR_CHECK has reset, it runs again.
  pub init_again :
      (esp' : Esp)
      → ((lownet_init esp' (lownet_init esp s).0).1 ≡ already_initialized)
        ↔ (is_retryable (lownet_init esp s).1 ≡ false)
  unfolding lownet_init service_start waited late power_on
  init_again esp' = (λ h. ground arith, λ h. ground arith)
