-- ===== src/Tests/Archive.antt =====
-- The earlier version, on its key and on datagrams of two bytes.
use rfid_encryption.Base.{
  ℕ, ◌+◌, ◌*◌, ◌%◌, ◌≤◌, ◌<◌, ◌≡◌, ◌≢◌, refl, ap, sym, ◌∙◌, ◌-◌, length-append, append-nil, List,
  [], ◌∷◌, ◌++◌, false, none, some, length, replicate, get_elem?, arith, length-replicate, zero,
  suc,
}
use rfid_encryption.Flash.Storage.{partition_size, flash_reader}
use rfid_encryption.Archive.Padding.{pad_string_pkcs7}
use rfid_encryption.Archive.Padding.Laws.{pad_string_pkcs7_lem}
use rfid_encryption.Archive.Random.{
  Pointer, null, points, rsa_sign_with_sha256, char_set, char_set_size, signature_length,
}
use rfid_encryption.Sign.Random.{drawn}
use rfid_encryption.Archive.Random
use rfid_encryption.Archive.Storage.{aes_encrypter, hmac_derive_aes, flash_writer}
use rfid_encryption.Archive.Storage.Image.{image, sealed_block, flash_reader_overruns-flash_writer}
use rfid_encryption.Archive.Server.{udp_server_task}
use rfid_encryption.Archive.Server.Greetings.{Lives, udp_server_task-Lives}
use rfid_encryption.Udp.Replies.{nothing}
use rfid_encryption.Tests.Fixtures.{toy_crypto, toy_key, toy_flash, toy_heap, toy_heap_size}
use rfid_encryption.Tests.Network.{toy_net}

-- "abc" in an array of 20 bytes, with the literal at 0x3f400120.
pad_string_pkcs7_lem_example :
    let p : ℕ = 13 in
    let padded = pad_string_pkcs7 0x3f400120 (97 ∷ 98 ∷ 99 ∷ 0 ∷ replicate 16 7) 3 in
    (p ≤ 16 + 1
      → (padded ≡ some (97 ∷ 98 ∷ 99 ∷ (replicate p 45 ++ replicate 4 7), 16)) × (◌≡◌ {A = ℕ} 0 0))
    × (16 + 1 < p → padded ≡ none)
    × (◌≡◌ {A = ℕ} 16 0 → ◌≢◌ {A = ℕ} 3 15 → padded ≡ none)
    × (◌≡◌ {A = ℕ} 45 13 → ◌≡◌ {A = ℕ} 0x20 0)
    × (◌≡◌ {A = ℕ} 0x20 0 → ◌≡◌ {A = ℕ} 45 13)
pad_string_pkcs7_lem_example =
    pad_string_pkcs7_lem 0x3f400120 (97 ∷ 98 ∷ 99 ∷ []) (replicate 16 7)
      (omega arith, (omega arith, (omega arith, tt))) (omega arith)

abbrev toy_malloc : ℕ → Pointer
toy_malloc n = points 0x3ffb1234 (replicate n 9)

abbrev heap_size : Pointer → ℕ
heap_size null = 0
heap_size (points address heap) = length heap

toy_malloc-Sized : Random.Sized toy_malloc
toy_malloc-Sized n address heap e = sym (ap heap_size e) ∙ length-replicate n 9

generate_random_string_fills_example :
    ((n : ℕ)
      → toy_malloc (n + 1) ≡ null
      → Random.generate_random_string toy_malloc (λ i. i * 7) n ≡ some null)
    × ((n address : ℕ) (heap : List ℕ)
        → toy_malloc (n + 1) ≡ points address heap
        → Random.generate_random_string toy_malloc (λ i. i * 7) n
          ≡ some (points address (drawn char_set char_set_size (λ i. i * 7) 0 n ++ (0 ∷ []))))
    × ((address : ℕ) (heap : List ℕ)
        → toy_malloc 17 ≡ points address heap
        → rsa_sign_with_sha256 toy_malloc (λ i. i * 7) ≡ some (address % 256))
generate_random_string_fills_example =
    Random.generate_random_string_fills toy_malloc (λ i. i * 7) toy_malloc-Sized

abbrev literal : ℕ
literal = 0x3f400120

partition_roomy : 16 ≤ partition_size
unfolding partition_size
partition_roomy = omega arith

derived : hmac_derive_aes toy_crypto ≡ (0, toy_key)
unfolding hmac_derive_aes
derived = refl

abbrev toy_block : List ℕ
toy_block =
    83 ∷ 84 ∷ 66 ∷ 33 ∷ 113 ∷ 115 ∷ 106 ∷ 119 ∷ 98 ∷ 117 ∷ 102 ∷ 96 ∷ 108 ∷ 102 ∷ 122 ∷ 34 ∷ []

block_sealed : sealed_block toy_crypto literal toy_key ≡ toy_block
unfolding aes_encrypter
block_sealed = refl

abbrev Small : List ℕ → Type 0
Small [] = Unit {0}
Small (x ∷ xs) = (x < 255) × Small xs

Small-clear : (xs : List ℕ) (j : ℕ) → Small xs → get_elem? xs j ≢ some 255
Small-clear [] j s e = cc
Small-clear (x ∷ xs) zero (low, s) e = let full : x ≡ 255 = cc in absurd (omega arith)
Small-clear (x ∷ xs) (suc j) (low, s) e = Small-clear xs j s e

toy_block-Small : Small toy_block
toy_block-Small = (
  omega arith,
  (
    omega arith,
    (
      omega arith,
      (
        omega arith,
        (
          omega arith,
          (
            omega arith,
            (
              omega arith,
              (
                omega arith,
                (
                  omega arith,
                  (
                    omega arith,
                    (
                      omega arith,
                      (omega arith, (omega arith, (omega arith, (omega arith, (omega arith, tt))))),
                    ),
                  ),
                ),
              ),
            ),
          ),
        ),
      ),
    ),
  ),
)

block_clear : (j : ℕ) → 0 < j → get_elem? (sealed_block toy_crypto literal toy_key) j ≢ some 255
block_clear j above = rw block_sealed (Small-clear toy_block j toy_block-Small)

abbrev stored : List ℕ
stored = image toy_crypto literal toy_key

stored_size : length stored ≡ partition_size
stored_size = omega (
  arith,
  partition_roomy,
  ap length block_sealed,
  length-append (sealed_block toy_crypto literal toy_key) (replicate (partition_size - 16) 0),
  length-replicate {A = ℕ} (partition_size - 16) 0,
)

stored_reads : toy_flash.flash_read stored 0x10000 partition_size ≡ (0, stored)
stored_reads =
    let none_left : partition_size - length stored ≡ 0 = omega (arith, stored_size) in
    ap (λ (n : ℕ). (0, stored ++ replicate n 255)) none_left
    ∙ ap (λ (xs : List ℕ). (0, xs)) (append-nil stored)

flash_reader_overruns-flash_writer_example :
    (flash_writer toy_crypto toy_flash literal [] ≡ some (false, stored))
    × (flash_reader toy_crypto toy_flash 0 stored toy_heap toy_heap partition_size false ≡ none)
flash_reader_overruns-flash_writer_example =
    flash_reader_overruns-flash_writer toy_crypto toy_flash 0 literal [] stored 0x10000 toy_key
      toy_heap toy_heap refl refl derived (ap length block_sealed) refl stored_reads block_clear
      toy_heap_size

udp_server_task-Lives_example : Lives toy_net (udp_server_task toy_net 5 [])
udp_server_task-Lives_example =
    udp_server_task-Lives toy_net 5 [] (λ h. (omega arith, omega arith)) refl nothing
