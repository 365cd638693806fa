-- ===== src/Crypt.antt =====
-- managed_components/crypt/crypt.c: the cipher of frames and the command that selects a key. AES in
-- CBC mode is esp_aes's, and a parameter.
pub mod Delivery
pub mod SelfTest
pub mod SetKey
use tol103m_assignment_p.Base.{
  ℕ, ◌≡◌, List, [], ◌∷◌, Option, none, some, length, Bool, ◌&&◌, ◌==◌, ltb, bytes_eq, if◌then◌else◌,
}
use tol103m_assignment_p.Lownet.Frame.{SecureFrame}
use tol103m_assignment_p.Lownet.Keys.{Key, key_size_aes, Keystore, lownet_keystore_read}
use tol103m_assignment_p.Lownet.Net.{Net, lownet_set_key}

-- esp_aes_crypt_cbc in its two modes: key, initialisation vector, data.
pub record AesCbc : Type 0 where
  pub encrypt_cbc : List ℕ → List ℕ → List ℕ → List ℕ
  pub decrypt_cbc : List ℕ → List ℕ → List ℕ → List ℕ

-- What its documentation promises for data of whole blocks, at the one length in use.
pub record IsAesCbc (aes : AesCbc) : Type 0 where
  pub length-encrypt :
      (key iv text : List ℕ) → length text ≡ 208 → length (aes.encrypt_cbc key iv text) ≡ 208
  pub decrypt-encrypt :
      (key iv text : List ℕ)
      → length text ≡ 208
      → aes.decrypt_cbc key iv (aes.encrypt_cbc key iv text) ≡ text

-- The first 20 bytes are copied; the rest goes through the cipher.
unfoldable pub crypt_encrypt : AesCbc → Key → SecureFrame → SecureFrame
crypt_encrypt aes key plain = record plain { body = aes.encrypt_cbc key.bytes plain.ivt plain.body }

unfoldable pub crypt_decrypt : AesCbc → Key → SecureFrame → SecureFrame
crypt_decrypt aes key cipher = record cipher {
  body = aes.decrypt_cbc key.bytes cipher.ivt cipher.body;
}

-- A key whose pointer lownet_set_key cannot follow: it copies 32 bytes if the size is 32.
abbrev pub is_wild : Key → Bool
is_wild key = key.size == key_size_aes && ltb (length key.bytes) key_size_aes

-- crypt_setkey_command with its argument, if any. `garbage` is the uninitialised key, with the bytes
-- that can be read from where its pointer happens to point; an argument other than "0" and "1" makes
-- lownet_set_key use it. `none` is the fault of a copy through a pointer that cannot be followed. The
-- keys of the store point to 32 bytes or have size 0.
unfoldable pub crypt_setkey_command :
    {H : Type 0} → Net H → Keystore → Key → Option (List ℕ) → Option (Net H)
crypt_setkey_command net store garbage none = some (lownet_set_key net none)
crypt_setkey_command net store garbage (some args) =
    if bytes_eq args (b'0' ∷ [])
    then some (lownet_set_key net (some (lownet_keystore_read store 0)))
    else (if bytes_eq args (b'1' ∷ [])
        then some (lownet_set_key net (some (lownet_keystore_read store 1)))
        else (if is_wild garbage then none else some (lownet_set_key net (some garbage))))
