-- ===== src/Tls/Keys.antt =====
-- Which key and certificate https_request of main/tls_connection.c offers to the server.
use rfid_encryption.Base.{
  ℕ, ◌+◌, ◌%◌, ◌≤◌, ◌<◌, ◌≡◌, ◌≢◌, refl, List, [], ◌∷◌, true, false, Option, none, some, length,
  length-take, take, done, Ensures, Ensures-done, Ensures-if, Ensures-checked, ◌||◌, ◌==◌, arith,
}
use rfid_encryption.Device.{
  Event, History, Device, Env, log, conn_http_new, alloc, crt_block, key_block,
}
use rfid_encryption.Flash.Padding.{padding_size}
use rfid_encryption.Flash.Aes.{Crypto}
use rfid_encryption.Flash.Aes.RoundTrip
use rfid_encryption.Flash.Aes.RoundTrip.{ciphertext}
use rfid_encryption.Flash.Storage.{
  FlashChip, Base64Decode, partition_size, input_rsa_private_key, flash_writer,
}
use rfid_encryption.Flash.Storage.RoundTrip.{IsLawful, EndsOnce}
use rfid_encryption.Flash.KeyStore.{Holds, take-splice, flash_writer-Holds}
use rfid_encryption.Tls.{clear, connect, https_request, hex_text}
use rfid_encryption.Tls.Message.{Json}
use rfid_encryption.Tls.Keeps.{IsLater, send_card_key-keeps}

-- The certificate and the key of the last connection that was asked for.
abbrev pub last_offer : History → Option (List ℕ × List ℕ)
last_offer [] = none
last_offer (conn_http_new crt key saved ∷ h) = some (crt, key)
last_offer (_ ∷ h) = last_offer h

module _ (env : Env) (json : Json) (uid card_key crt key : List ℕ) where
  abbrev Offered : History → Type 0
  Offered h = last_offer h ≡ some (crt, key)

  Offered-later : (e : Event) (h : History) → IsLater e → Offered h → Offered (e ∷ h)
  Offered-later (conn_http_new crt' key' saved) h later offered = absurd later
  Offered-later _ h later offered = offered

  connect-Offered :
      (fuel : ℕ) (d : Device)
      → Ensures (connect env json fuel uid card_key key crt d) λ out. Offered out.1.history
  unfolding connect
  connect-Offered fuel d =
      let opened : Device = log (conn_http_new crt key d.saved_client_session) d in
      Ensures-if (env.connects d.history)
        (λ _. Ensures-checked (hex_text env 7 uid) _ λ hex_uid _.
          Ensures-checked (hex_text env 15 card_key) _ λ hex_key _.
            send_card_key-keeps env Offered Offered-later json fuel uid hex_uid hex_key
              (record opened {
                saved_client_session = d.saved_client_session || env.client_session opened.history;
              })
              refl)
        (λ _. Ensures-done (clear false opened) refl)

-- What a request offers when its partitions hold a key and a certificate.
https_request-Holds :
    (env : Env) (json : Json) (C : Crypto) (F : FlashChip) (nul : ℕ) (chip : F.Chip) (fuel : ℕ)
    (heap uid card_key key crt : List ℕ) (d : Device) (out : ℕ × Device)
    → Holds C F nul chip false key
    → Holds C F nul chip true crt
    → length heap ≡ partition_size
    → 0 < length key
    → 0 < length crt
    → length key ≤ partition_size
    → length crt ≤ partition_size
    → https_request env json C F nul chip fuel heap uid card_key d ≡ done out
    → last_offer out.1.history ≡ some (crt, key)
unfolding https_request
https_request-Holds env json C F nul chip fuel heap uid card_key key crt d out stored_key stored_crt
      size some_key some_crt key_fits crt_fits e =
    let loaded : Device = log (alloc crt_block) (log (alloc key_block) d) in
    let key_there : (length key == 0) ≡ false = ground arith in
    let crt_there : (length crt == 0) ≡ false = ground arith in
    let connects : connect env json fuel uid card_key key crt loaded ≡ done out =
      rw
        (
          stored_key.reads heap heap size (omega arith),
          stored_crt.reads heap heap size (omega arith),
          key_there,
          crt_there,
          take-splice key heap,
          take-splice crt heap,
        )
        at e in
    (connect-Offered env json uid card_key crt key fuel loaded).at out connects

-- On a lawful chip, under the conditions on key and ciphertext under which flash_reader finds what
-- flash_writer stored: once flash_writer has stored the decoded key, and as long as the other partition
-- holds a certificate, every request that ends has asked for its connection with exactly that key and
-- that certificate.
pub https_request-flash_writer :
    (env : Env) (json : Json) (C : Crypto) (aes_key : List ℕ) (F : FlashChip) (address nul : ℕ)
    (decode : Base64Decode) (chip chip' : F.Chip) (fuel : ℕ)
    (heap heap' der uid card_key crt : List ℕ) (ret len : ℕ) (d : Device) (out : ℕ × Device)
    → RoundTrip.IsLawful C aes_key
    → IsLawful F "RSA_key" address
    → decode heap partition_size input_rsa_private_key ≡ (ret, der, len)
    → length der ≡ partition_size
    → len % 16 ≢ 0
    → len + padding_size len + 4 ≤ partition_size
    → EndsOnce (ciphertext C aes_key der len)
    → flash_writer C F nul decode heap chip ≡ some (false, chip')
    → Holds C F nul chip' true crt
    → 0 < length crt
    → length crt ≤ partition_size
    → length heap' ≡ partition_size
    → https_request env json C F nul chip' fuel heap' uid card_key d ≡ done out
    → last_offer out.1.history ≡ some (crt, take len der)
https_request-flash_writer env json C aes_key F address nul decode chip chip' fuel heap heap' der
      uid card_key crt ret len d out L FL decoded der_size partial room ends wrote stored_crt
      some_crt crt_fits size e =
    let whole : length (take len der) ≡ len = omega (arith, length-take len der) in
    https_request-Holds env json C F nul chip' fuel heap' uid card_key (take len der) crt d out
      (flash_writer-Holds C aes_key L F address FL nul decode chip chip' heap der ret len decoded
        der_size partial room ends wrote)
      stored_crt size (ground (arith, whole)) some_crt (omega (arith, whole)) crt_fits e
