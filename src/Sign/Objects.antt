-- ===== src/Sign/Objects.antt =====
-- What signing leaves of the objects of mbedtls, when it returns.
use rfid_encryption.Base.{ℕ, ◌≡◌, refl, ap, List, some, not, ◌==◌}
use rfid_encryption.Mbed.{Object, Uses, settle}
use rfid_encryption.Flash.Aes.{Crypto, pointer_size}
use rfid_encryption.Flash.Storage.{FlashChip, flash_reader, partition_size}
use rfid_encryption.Sign.{
  Pk, Result, returned, aborted, overrun, generate_random_string, mbedtls_rsa_sign,
  signature_generater,
}
use rfid_encryption.Sign.Verify.{Gives, Gives-returned, Gives-bounded, mbedtls_rsa_sign-SignedBy}

-- The calls give back what they took, whatever objects there were before.
abbrev pub Balanced : Uses → Type 0
Balanced uses = (live : List Object) → settle uses live ≡ some live

module _ (P : Pk) where
  mbedtls_rsa_sign-Balanced :
      (bytes : List ℕ) (n : ℕ) (private_key : List ℕ) (m : ℕ) (signature : List ℕ) (size : ℕ)
      → Gives (mbedtls_rsa_sign P bytes n private_key m signature size) λ r. Balanced r.3
  mbedtls_rsa_sign-Balanced bytes n private_key m signature size = record {
    at = λ r e live.
        let (_, _, _, _, _, _, _, _, _, uses) =
          (mbedtls_rsa_sign-SignedBy P bytes n private_key m signature size).at r e in
        ap (λ (u : Uses). settle u live) uses;
  }

  after_sign :
      (m : Result (ℕ × List ℕ × ℕ × Uses)) (string : List ℕ)
      → Gives m (λ r. Balanced r.3)
      → Gives
          (elim m [
            | returned r ↦ returned (string, r.1, r.3)
            | aborted ↦ aborted
            | overrun ↦ overrun
          ])
          (λ (out : List ℕ × List ℕ × Uses). Balanced out.2)
  after_sign (returned r) string h = Gives-returned (string, r.1, r.3) (h.at r refl)
  after_sign aborted string h = record { at = λ a e. cc }
  after_sign overrun string h = record { at = λ a e. cc }

pub signature_generater-Balanced :
    (P : Pk) (C : Crypto) (F : FlashChip) (nul : ℕ) (chip : F.Chip) (heap heap' : List ℕ)
    (esp_random : ℕ → ℕ) (label : ℕ) (data_to_sign signature : List ℕ)
    → Gives
        (signature_generater P C F nul chip heap heap' esp_random label data_to_sign signature)
        (λ out. Balanced out.2)
unfolding signature_generater
signature_generater-Balanced P C F nul chip heap heap' esp_random label data_to_sign signature =
    Gives-bounded (generate_random_string esp_random data_to_sign 16) _ λ string _.
      Gives-bounded (flash_reader C F nul chip heap' heap partition_size (not (label == 0))) _
        λ k _.
          after_sign P (mbedtls_rsa_sign P string pointer_size k.1 k.0 signature pointer_size)
            string (mbedtls_rsa_sign-Balanced P string pointer_size k.1 k.0 signature pointer_size)
