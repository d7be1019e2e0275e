-- ===== src/Sign/Generate.antt =====
-- What comes of signature_generater, which takes the size of a pointer for that of its buffers.
use rfid_encryption.Base.{ℕ, ◌≢◌, refl, List, ap, not, ◌==◌}
use rfid_encryption.Flash.Aes.{Crypto, pointer_size}
use rfid_encryption.Flash.Storage.{FlashChip, flash_reader, partition_size}
use rfid_encryption.Sign.{
  Pk, Result, returned, aborted, overrun, generate_random_string, mbedtls_rsa_sign,
  signature_generater,
}
use rfid_encryption.Mbed.{Uses}
use rfid_encryption.Sign.Verify.{Gives, Gives-bounded, mbedtls_rsa_sign-SignedBy}

-- The loop's end in signature_generater.
after_sign :
    (m : Result (ℕ × List ℕ × ℕ × Uses)) (string : List ℕ)
    → Gives m (λ _. ⊥)
    → Gives
        (elim m [
          | returned r ↦ returned (string, r.1, r.3)
          | aborted ↦ aborted
          | overrun ↦ overrun
        ])
        (λ (out : List ℕ × List ℕ × Uses). ⊥)
after_sign (returned r) string h = absurd (h.at r refl)
after_sign aborted string h = record { at = λ a e. cc }
after_sign overrun string h = record { at = λ a e. cc }

-- When mbedtls refuses to sign into a buffer of four bytes, as it does with every RSA key of more than
-- 32 bits, signature_generater never returns, whatever its arguments, the flash and the random
-- numbers: ESP_ERROR_CHECK aborts it, if no buffer overrun comes first.
pub signature_generater_never :
    (P : Pk) (C : Crypto) (F : FlashChip) (nul : ℕ) (chip : F.Chip) (heap heap' : List ℕ)
    (esp_random : ℕ → ℕ) (label : ℕ) (data_to_sign signature : List ℕ)
    (out : List ℕ × List ℕ × Uses)
    → ((key : P.Key) (hash : List ℕ) → (P.pk_sign key hash 0 pointer_size).0 ≢ 0)
    → signature_generater P C F nul chip heap heap' esp_random label data_to_sign signature
      ≢ returned out
unfolding signature_generater
signature_generater_never P C F nul chip heap heap' esp_random label data_to_sign signature out
      refuses =
    λ e. never.at out e
  where
    never :
        Gives
          (signature_generater P C F nul chip heap heap' esp_random label data_to_sign signature)
          (λ (out' : List ℕ × List ℕ × Uses). ⊥)
    never = Gives-bounded (generate_random_string esp_random data_to_sign 16) _ λ string _.
        Gives-bounded (flash_reader C F nul chip heap' heap partition_size (not (label == 0))) _
          λ k _.
            after_sign (mbedtls_rsa_sign P string pointer_size k.1 k.0 signature pointer_size)
              string
              (record {
                at = λ r e.
                    let (key, signed, sign, _, _, made, _, _, _, _) =
                      (mbedtls_rsa_sign-SignedBy P string pointer_size k.1 k.0 signature
                          pointer_size).at
                        r e in
                    refuses (P.pk_parse_key key).1 (P.sha256 signed)
                      (ap (λ (x : ℕ × List ℕ). x.0) made);
              })
