-- ===== src/Tests/Lookups.antt =====
-- The tables and the texts at concrete inputs.
use tol103m_assignment_p.Base.{
  ◌≡◌, inr, refl, arith, [], ◌∷◌, true, none, some, replicate, u32, ◌==◌, if◌then◌else◌,
}
use tol103m_assignment_p.Lownet.Protocols.{lownet_get_handler}
use tol103m_assignment_p.Lownet.Keys.{no_key, Keystore, initial_keystore}
use tol103m_assignment_p.Lownet.Net.{Net}
use tol103m_assignment_p.Crypt.{crypt_setkey_command}
use tol103m_assignment_p.Crypt.Delivery.{SameKey}
use tol103m_assignment_p.Crypt.SetKey.{setkey-SameKey}
use tol103m_assignment_p.Utility.{hex_to_dec}
use tol103m_assignment_p.Utility.Hex.{all_digits, hex_value, hex_to_dec_lem}
use tol103m_assignment_p.App.{Handler, chat_receive, ping_receive, crane_receive, registered}
use tol103m_assignment_p.App.Start.{registered_handlers}
use tol103m_assignment_p.Tests.Nodes.{first_node, second_node, shared_key}

abbrev store : Keystore
store = record { aes_keystore = replicate 4 no_key; keystore_init = true }

setkey-SameKey_example :
    (a b : Net Handler) × (crypt_setkey_command first_node initial_keystore no_key
        (some (b'1' ∷ []))
      ≡ some a)
    × (crypt_setkey_command second_node initial_keystore shared_key (some (b'1' ∷ [])) ≡ some b)
    × SameKey a b
setkey-SameKey_example =
    setkey-SameKey first_node second_node refl refl no_key shared_key (some (b'1' ∷ []))
      (inr (inr refl))

hex_to_dec_lem_example :
    hex_to_dec (b'F' ∷ b'f' ∷ [])
    ≡ (if all_digits (b'F' ∷ b'f' ∷ []) then u32 (hex_value (b'F' ∷ b'f' ∷ []) 0) else 0)
hex_to_dec_lem_example = hex_to_dec_lem (b'F' ∷ b'f' ∷ []) (omega arith, (omega arith, tt))

registered_handlers_example : lownet_get_handler registered 4 ≡ (
    if 4 == 2
    then some chat_receive
    else (if 4 == 3 then some ping_receive else (if 4 == 5 then some crane_receive else none)))
registered_handlers_example = registered_handlers 4
