-- ===== src/Lownet/Start.antt =====
-- lownet_init of managed_components/lownet/lownet.c, with the part of lownet_service_main before its
-- loop and lownet_service_kill. What the calls of ESP-IDF return is an argument.
pub mod Outcomes
use tol103m_assignment_p.Base.{
  ℕ, ◌+◌, List, Bool, true, false, not, ◌&&◌, ◌||◌, ◌==◌, if◌then◌else◌, replicate,
}
use tol103m_assignment_p.DeviceTable.{Identifier, identifier, lownet_lookup, lownet_lookup_mac}
use tol103m_assignment_p.Lownet.Protocols.{no_protocols}
use tol103m_assignment_p.Lownet.Keys.{
  Key, Keystore, lownet_keystore_init, lownet_keystore_free, lownet_keystore_write, base_shared_key,
  alt_shared_key, empty_keystore,
}
use tol103m_assignment_p.Lownet.Net.{Net}

-- Whether each call succeeds; `checks` are the seven under ESP_ERROR_CHECK. The code does not look at
-- the results of `service_task`, `decrypt_task`, `read_mac` and `callback`, which are the two tasks'
-- creation, esp_read_mac and esp_now_register_recv_cb. `mac` is the address that esp_read_mac reads,
-- `stack_mac` what local_mac holds if it fails. `in_time`: the service sets one of its two bits within
-- the five seconds; if not, `identified` and `registered` say whether it has come past the device
-- look-up and past the registration by then.
pub record Esp : Type 0 where
  pub decrypt_queue : Bool
  pub checks : Bool
  pub esp_now : Bool
  pub events : Bool
  pub service_task : Bool
  pub decrypt_task : Bool
  pub inbound : Bool
  pub read_mac : Bool
  pub mac : List ℕ
  pub stack_mac : List ℕ
  pub peer : Bool
  pub callback : Bool
  pub in_time : Bool
  pub identified : Bool
  pub registered : Bool

-- net_initialized, net_system without its handles, the key store, the numbers of tasks that there are,
-- and whether the radio calls lownet_inbound_handler.
pub record System (H : Type 0) : Type 0 where
  pub net_initialized : Bool
  pub net : Net H
  pub keystore : Keystore
  pub decrypt_tasks : ℕ
  pub service_tasks : ℕ
  pub receives : Bool

-- `aborted`: a failure under ESP_ERROR_CHECK, after which the chip reboots.
pub data Outcome : Type 0 where
  already_initialized no_decrypt_queue aborted no_esp_now no_events service_error timed_out ready :
      Outcome

abbrev pub zero_identifier : Identifier
zero_identifier = identifier (replicate 6 0) 0

abbrev pub local_mac : Esp → List ℕ
local_mac esp = if esp.read_mac then esp.mac else esp.stack_mac

-- The number of tasks that a call of xTaskCreate adds.
abbrev pub count : Bool → ℕ
count created = if created then 1 else 0

module _ {H : Type 0} where
  -- net_system after the memset, with the buffer for the key put back.
  unfoldable pub zero_net : Net H → Net H
  zero_net net = record {
    identity = zero_identifier;
    broadcast = zero_identifier;
    aes_key = record { bytes = net.aes_key.bytes; size = 0 };
    protocols = no_protocols;
    sync_time = record { seconds = 0; parts = 0 };
    sync_stamp = 0;
  }

  -- The memory after a reset.
  unfoldable pub power_on : System H
  power_on = record {
    net_initialized = false;
    net = record {
      identity = zero_identifier;
      broadcast = zero_identifier;
      aes_key = record { bytes = replicate 32 0; size = 0 };
      protocols = no_protocols;
      sync_time = record { seconds = 0; parts = 0 };
      sync_stamp = 0;
    };
    keystore = empty_keystore;
    decrypt_tasks = 0;
    service_tasks = 0;
    receives = false;
  }

  abbrev pub named : Esp → Net H → Net H
  named esp net = record net {
    identity = lownet_lookup_mac (local_mac esp);
    broadcast = lownet_lookup 0xff;
  }

  -- The service up to its loop: net_system, and whether it sets the bit EVENT_CORE_READY, or kills
  -- itself, which sets EVENT_CORE_ERROR.
  unfoldable pub service_start : Esp → Net H → Net H × Bool
  service_start esp net =
      if not esp.inbound
      then (net, false)
      else (let net' : Net H = named esp net in
          if net'.identity.node == 0 || net'.broadcast.node == 0
          then (net', false)
          else (net', esp.peer))

  -- The system when the service has set its bit, and whether that is EVENT_CORE_READY.
  -- lownet_service_kill runs on the service's own task, which its first vTaskDelete ends: the decryption
  -- goes on.
  unfoldable pub waited : Esp → System H → System H × Bool
  unfolding service_start
  waited esp s =
      let started = service_start esp s.net in
      if started.1
      then (
        record s {
          net = started.0;
          service_tasks = s.service_tasks + 1;
          receives = s.receives || esp.callback;
        },
        true,
      )
      else (record s { net = started.0 }, false)

  -- The system when the time has run out, and the service is somewhere before its bit, if it is at all.
  unfoldable pub late : Esp → System H → System H
  unfolding service_start
  late esp s = if not esp.service_task then s else record s {
    net = if esp.inbound && esp.identified then named esp s.net else s.net;
    service_tasks = s.service_tasks + 1;
    receives = s.receives || (esp.callback && (esp.registered && (service_start esp s.net).1));
  }

  -- What follows an error or a timeout.
  abbrev pub given_up : System H → System H
  given_up s = record s { net_initialized = false; keystore = lownet_keystore_free s.keystore }

  unfoldable pub lownet_init : Esp → System H → System H × Outcome
  unfolding zero_net waited late power_on
  lownet_init esp s =
      if s.net_initialized
      then (s, already_initialized)
      else (let s' : System H = record s { net_initialized = true; net = zero_net s.net } in
          if not esp.decrypt_queue
          then (s', no_decrypt_queue)
          else (if not esp.checks
              then (power_on, aborted)
              else (if not esp.esp_now
                  then (s', no_esp_now)
                  else (if not esp.events
                      then (s', no_events)
                      else (let begun : System H = record s' {
                        keystore =
                            lownet_keystore_write
                              (lownet_keystore_write (lownet_keystore_init s.keystore) 0
                                base_shared_key)
                              1 alt_shared_key;
                        decrypt_tasks = s.decrypt_tasks + count esp.decrypt_task;
                      } in
                          let (up, is_up) = waited esp begun in
                          if esp.service_task && esp.in_time
                          then (if is_up then (up, ready) else (given_up up, service_error))
                          else (given_up (late esp begun), timed_out))))))
