-- ===== src/Crypt/SetKey.antt =====
-- The key that is active after the command.
use tol103m_assignment_p.Base.{
  ℕ, zero, suc, ◌≡◌, refl, sym, ap, subst, ◌∙◌, ◌⊎◌, inl, inr, arith, List, [], ◌∷◌, ◌++◌, Option,
  none, some, length, take, drop,
}
use tol103m_assignment_p.Lownet.Keys.{
  Key, input_key_bytes, base_shared_key, alt_shared_key, initial_keystore, lownet_keystore_init,
  lownet_keystore_write, lownet_keystore_read,
}
use tol103m_assignment_p.Lownet.Net.{Net, lownet_set_key}
use tol103m_assignment_p.Crypt.{crypt_setkey_command}
use tol103m_assignment_p.Crypt.Delivery.{SameKey}

stored_key : List ℕ → Key
stored_key words = record { bytes = input_key_bytes words; size = 32 }

read_0 : lownet_keystore_read initial_keystore 0 ≡ stored_key base_shared_key
unfolding initial_keystore lownet_keystore_init lownet_keystore_write lownet_keystore_read
    stored_key
read_0 = refl

read_1 : lownet_keystore_read initial_keystore 1 ≡ stored_key alt_shared_key
unfolding initial_keystore lownet_keystore_init lownet_keystore_write lownet_keystore_read
    stored_key
read_1 = refl

drop-all : (n : ℕ) (xs : List ℕ) → length xs ≡ n → drop n xs ≡ []
drop-all zero [] h = refl
drop-all zero (x ∷ xs) h = absurd (omega arith)
drop-all (suc n) [] h = refl
drop-all (suc n) (x ∷ xs) h = drop-all n xs (omega arith)

module _ {H : Type 0} (a b : Net H) (held : length a.aes_key.bytes ≡ 32)
    (held' : length b.aes_key.bytes ≡ 32) where
  same_stored :
      (words : List ℕ)
      → SameKey
          (lownet_set_key a (some (stored_key words)))
          (lownet_set_key b (some (stored_key words)))
  unfolding lownet_set_key stored_key
  same_stored words =
      let rest : drop 32 a.aes_key.bytes ≡ drop 32 b.aes_key.bytes =
        drop-all 32 a.aes_key.bytes held ∙ sym (drop-all 32 b.aes_key.bytes held') in
      inr (omega arith, omega arith, ap (λ (x : List ℕ). take 32 (input_key_bytes words) ++ x) rest)

  same_none : SameKey (lownet_set_key a none) (lownet_set_key b none)
  unfolding lownet_set_key
  same_none = inl (refl, refl)

  abbrev Stored : Key → Type 0
  Stored k = SameKey (lownet_set_key a (some k)) (lownet_set_key b (some k))

  -- The command sets a key on both nodes, and it is the same.
  abbrev pub SetsSame : Key → Key → Option (List ℕ) → Type 0
  SetsSame garbage garbage' args =
      (a' b' : Net H) × (crypt_setkey_command a initial_keystore garbage args ≡ some a')
      × (crypt_setkey_command b initial_keystore garbage' args ≡ some b')
      × SameKey a' b'

  -- Two nodes on which the command was given no argument, or both times "0", or both times "1", use no
  -- key, or the same one, whatever they used before and whatever the stack held, and neither faults:
  -- the stores are those that lownet_init leaves, and the nodes' key buffers have 32 bytes.
  pub setkey-SameKey :
      (garbage garbage' : Key) (args : Option (List ℕ))
      → (args ≡ none) ⊎ ((args ≡ some (b'0' ∷ [])) ⊎ (args ≡ some (b'1' ∷ [])))
      → SetsSame garbage garbage' args
  unfolding crypt_setkey_command
  setkey-SameKey garbage garbage' args (inl e) =
      subst (SetsSame garbage garbage') (sym e) (_, _, refl, refl, same_none)
  setkey-SameKey garbage garbage' args (inr (inl e)) =
      subst (SetsSame garbage garbage') (sym e)
        (_, _, refl, refl, subst Stored (sym read_0) (same_stored base_shared_key))
  setkey-SameKey garbage garbage' args (inr (inr e)) =
      subst (SetsSame garbage garbage') (sym e)
        (_, _, refl, refl, subst Stored (sym read_1) (same_stored alt_shared_key))
