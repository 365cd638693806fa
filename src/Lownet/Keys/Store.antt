-- ===== src/Lownet/Keys/Store.antt =====
-- Reads after writes of the key store.
use tol103m_assignment_p.Base.{
  ℕ, zero, suc, ◌<◌, ◌≡◌, refl, arith, List, [], ◌∷◌, true, ◌==◌, get_or, set, length, take,
  if◌then◌else◌,
}
use tol103m_assignment_p.Lownet.Keys.{
  Key, Keystore, no_key, input_key_bytes, lownet_keystore_write, lownet_keystore_read,
}

get_or-set :
    (ks : List Key) (i j : ℕ) (k d : Key)
    → i < length ks
    → get_or (set ks i k) j d ≡ (if i == j then k else get_or ks j d)
get_or-set [] i j k d h = absurd (omega arith)
get_or-set (x ∷ ks) zero zero k d h = refl
get_or-set (x ∷ ks) zero (suc j) k d h = ground arith
get_or-set (x ∷ ks) (suc i) zero k d h = ground arith
get_or-set (x ∷ ks) (suc i) (suc j) k d h = ground (arith, get_or-set ks i j k d (omega arith))

-- In an initialised store of four entries, a write at an index in range is what a read at that
-- index gives, and a read at any other index gives what it gave before.
pub keystore_read-write :
    (s : Keystore) (i j : ℕ) (words : List ℕ)
    → s.keystore_init ≡ true
    → length s.aes_keystore ≡ 4
    → i < 4
    → lownet_keystore_read (lownet_keystore_write s i words) j ≡ (
        if i == j
        then record { bytes = take 32 (input_key_bytes words); size = 32 }
        else lownet_keystore_read s j)
unfolding lownet_keystore_read lownet_keystore_write
keystore_read-write s i j words init len lt = ground (
  arith,
  get_or-set s.aes_keystore i j (record { bytes = take 32 (input_key_bytes words); size = 32 })
      no_key,
)
