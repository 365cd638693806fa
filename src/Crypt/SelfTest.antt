-- ===== src/Crypt/SelfTest.antt =====
-- crypt_test_command of managed_components/crypt/crypt.c.
use tol103m_assignment_p.Base.{
  ℕ, ◌≤◌, ◌≡◌, refl, ap, ◌∙◌, arith, List, [], ◌∷◌, ◌++◌, Option, none, some, Bool, not, ltb, ◌==◌,
  if◌then◌else◌, u8, le32, length, length-copy_over, replicate, copy_over, bytes_eq, bytes_eq_self,
}
use tol103m_assignment_p.Lownet.Frame.{SecureFrame, secure_bytes}
use tol103m_assignment_p.Lownet.Keys.{Key}
use tol103m_assignment_p.Lownet.Net.{Net, lownet_get_device_id, lownet_get_key}
use tol103m_assignment_p.Crypt.{AesCbc, IsAesCbc, crypt_encrypt, crypt_decrypt}

-- The line that it writes, nothing, or a strcpy past the end of the frame on the stack. After a
-- failure a second line says which of the three parts of the frame are the same.
pub data Tested : Type 0 where
  nothing no_key overflows unencrypted_changed ivt_changed successful : Tested
  failed : Bool → Bool → Bool → Tested

-- memcmp on the bytes before the vector.
abbrev same_header : SecureFrame → SecureFrame → Bool
same_header a b =
    bytes_eq (a.magic0 ∷ a.magic1 ∷ a.source ∷ a.destination ∷ [])
      (b.magic0 ∷ b.magic1 ∷ b.source ∷ b.destination ∷ [])

module _ {H : Type 0} (aes : AesCbc) (net : Net H) where
  -- The frame with the string, of at most 203 characters: behind the payload's 200 bytes come the four
  -- of the check sum.
  unfoldable pub test_frame : List ℕ → SecureFrame
  test_frame str = record {
    magic0 = 0x20;
    magic1 = 0x4e;
    source = lownet_get_device_id net;
    destination = 0xff;
    ivt = le32 123456789 ++ replicate 12 0;
    body = 2 ∷ u8 (length str) ∷ 0 ∷ 0 ∷ copy_over (replicate 204 0) str (length str);
  }

  -- The tests, on the frame, its encryption and the decryption of that.
  unfoldable pub compare_frames : SecureFrame → SecureFrame → SecureFrame → Tested
  compare_frames plain cipher back =
      if not (same_header plain cipher)
      then unencrypted_changed
      else (if not (bytes_eq plain.ivt cipher.ivt)
          then ivt_changed
          else (if bytes_eq (secure_bytes plain) (secure_bytes back)
              then successful
              else failed (same_header plain back) (bytes_eq plain.ivt back.ivt)
                  (bytes_eq plain.body back.body)))

  unfoldable pub crypt_test_command : Option (List ℕ) → Tested
  unfolding test_frame compare_frames
  crypt_test_command none = nothing
  crypt_test_command (some str) = elim (lownet_get_key net) [
    | none ↦ no_key
    | some key ↦
        let plain = test_frame str in
        let cipher = crypt_encrypt aes key plain in
        if ltb 203 (length str)
        then overflows
        else compare_frames plain cipher (crypt_decrypt aes key cipher)
  ]

  length-test_frame : (str : List ℕ) → length str ≤ 203 → length (test_frame str).body ≡ 208
  unfolding test_frame
  length-test_frame str h =
      omega (arith, length-copy_over (length str) (replicate 204 0) str (omega arith) (omega arith))

  restored :
      IsAesCbc aes
      → (key : Key) (plain : SecureFrame) → length plain.body ≡ 208
      → crypt_decrypt aes key (crypt_encrypt aes key plain) ≡ plain
  unfolding crypt_encrypt crypt_decrypt
  restored laws key plain size =
      ap (λ (b : List ℕ). record plain { body = b })
        (laws.decrypt-encrypt key.bytes plain.ivt plain.body size)

  restored-successful :
      (key : Key) (plain back : SecureFrame)
      → back ≡ plain
      → compare_frames plain (crypt_encrypt aes key plain) back ≡ successful
  unfolding compare_frames crypt_encrypt
  restored-successful key plain back e =
      ap (λ (b : SecureFrame). compare_frames plain (crypt_encrypt aes key plain) b) e
      ∙ rw
          (
            bytes_eq_self (plain.magic0 ∷ plain.magic1 ∷ plain.source ∷ plain.destination ∷ []),
            bytes_eq_self plain.ivt,
            bytes_eq_self (secure_bytes plain),
          )
          refl

  -- With a key that is active, the test of a string of at most 203 characters reports success, if the
  -- cipher is AES in CBC mode; without a key it says so.
  pub crypt_test_command_lem :
      IsAesCbc aes
      → (str : List ℕ) → length str ≤ 203
      → crypt_test_command (some str) ≡ (if net.aes_key.size == 0 then no_key else successful)
  unfolding crypt_test_command lownet_get_key
  crypt_test_command_lem laws str h =
      let key = net.aes_key in
      let plain = test_frame str in
      let e =
        restored-successful key plain (crypt_decrypt aes key (crypt_encrypt aes key plain))
          (restored laws key plain (length-test_frame str h)) in
      ground arith
