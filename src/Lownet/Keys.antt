-- ===== src/Lownet/Keys.antt =====
-- The key store of managed_components/lownet/lownet_crypt.c. The buffers that the store's entries
-- point to are distinct and never leave it, but for reads, so an entry holds its bytes.
pub mod Store
use tol103m_assignment_p.Base.{
  ℕ, zero, suc, ◌+◌, List, [], ◌∷◌, ◌++◌, Bool, true, false, not, ◌||◌, leb, replicate, get_or, set,
  take, if◌then◌else◌, le32,
}

abbrev pub key_size_aes : ℕ
key_size_aes = 32

abbrev pub keystore_size : ℕ
keystore_size = 4

-- lownet_key_t; the bytes of a NULL pointer are [].
pub record Key : Type 0 where
  pub bytes : List ℕ
  pub size : ℕ

abbrev pub no_key : Key
no_key = record { bytes = []; size = 0 }

pub record Keystore : Type 0 where
  pub aes_keystore : List Key
  pub keystore_init : Bool

-- Before the first call: the entries are zero and nothing is allocated.
abbrev pub empty_keystore : Keystore
empty_keystore = record { aes_keystore = replicate 4 no_key; keystore_init = false }

unfoldable pub lownet_keystore_init : Keystore → Keystore
lownet_keystore_init s = if s.keystore_init then s else record {
  aes_keystore = replicate 4 (record { bytes = replicate 32 0; size = 0 });
  keystore_init = true;
}

-- The entries keep their sizes and dangling pointers; no call reads them until the next init.
unfoldable pub lownet_keystore_free : Keystore → Keystore
lownet_keystore_free s = if not s.keystore_init then s else record s { keystore_init = false }

-- lownet_input_key_t: eight words, whose bytes memcpy takes in the target's order.
abbrev pub input_key_bytes : List ℕ → List ℕ
input_key_bytes [] = []
input_key_bytes (w ∷ ws) = le32 w ++ input_key_bytes ws

unfoldable pub lownet_keystore_write : Keystore → ℕ → List ℕ → Keystore
lownet_keystore_write s index words =
    if not s.keystore_init || leb keystore_size index then s else record s {
      aes_keystore =
          set s.aes_keystore index
            (record { bytes = take key_size_aes (input_key_bytes words); size = key_size_aes });
    }

unfoldable pub lownet_keystore_read : Keystore → ℕ → Key
lownet_keystore_read s index =
    if not s.keystore_init || leb keystore_size index
    then no_key
    else get_or s.aes_keystore index no_key

abbrev pub base_shared_key : List ℕ
base_shared_key =
    0xc0c71cc5 ∷ 0x748ce81a ∷ 0x4b0e4aa7 ∷ 0x70c0d55e ∷ 0x58957e01 ∷ 0xed51d8cc ∷ 0x26b844c4
    ∷ 0x49c50530 ∷ []

abbrev pub alt_shared_key : List ℕ
alt_shared_key =
    0x0b7b9b81 ∷ 0x350ecef1 ∷ 0x7a7b0fbb ∷ 0xe9f134d2 ∷ 0x33bffa82 ∷ 0xc7c82730 ∷ 0x4861bba3
    ∷ 0x44e44aba ∷ []

-- The store as lownet_init leaves it.
unfoldable pub initial_keystore : Keystore
unfolding lownet_keystore_init lownet_keystore_write
initial_keystore =
    lownet_keystore_write
      (lownet_keystore_write (lownet_keystore_init empty_keystore) 0 base_shared_key) 1
      alt_shared_key
