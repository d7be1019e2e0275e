-- ===== src/Flash/Storage/Failures.antt =====
-- Where the stored key is not what the reader returns.
use rfid_encryption.Base.{
  ℕ, zero, suc, ◌+◌, ◌-◌, ◌*◌, ◌≤◌, ◌<◌, ◌≡◌, ap, ◌≢◌, List, [], ◌∷◌, none, some, Bool, true,
  splice, length, replicate, arith, read_bytes, write_bytes, write_bytes_lem, drop, drop-all,
  append-nil, length-replicate,
}
use rfid_encryption.Flash.Padding.{depad_string_pkcs7}
use rfid_encryption.Flash.Aes.{Crypto, string_with_aes, salt, iterations, pointer_size}
use rfid_encryption.Flash.Storage.{
  decrypt_to, partition_label, FlashChip, partition_size, all_ff, find_end, flash_reader,
}
use rfid_encryption.Flash.Storage.Scan.{find_end_overruns, find_end_at, all_ff-replicate}

partition_roomy : 5 ≤ partition_size
unfolding partition_size
partition_roomy = omega arith

replicate_cons : (n : ℕ) → 1 ≤ n → replicate {A = ℕ} n 255 ≡ 255 ∷ replicate {A = ℕ} (n - 1) 255
replicate_cons zero h = absurd (omega arith)
replicate_cons (suc n) h = ap (λ (k : ℕ). 255 ∷ replicate k 255) (omega arith)

module _ (C : Crypto) (F : FlashChip) (nul : ℕ) (chip : F.Chip) (address : ℕ) (label : Bool) where
  -- When the partition is there and reads without error, but its 4096 bytes nowhere behind the first
  -- hold four 0xFF in a row, the reader's search leaves its buffer: `none`.
  pub flash_reader_overruns :
      (heap dest image : List ℕ)
      → F.find_first chip (partition_label label) ≡ some address
      → F.flash_read chip address partition_size ≡ (0, image)
      → length image ≡ partition_size
      → length heap ≡ partition_size
      → ((j : ℕ) → 0 < j → all_ff 4 image j ≢ some true)
      → flash_reader C F nul chip heap dest partition_size label ≡ none
  unfolding flash_reader
  flash_reader_overruns heap dest image found reads size heap_size full =
      let over : drop (0 + length image) heap ≡ [] =
        drop-all (0 + length image) heap (omega arith) in
      rw (
        found,
        flash_reader,
        reads,
        write_bytes_lem heap 0 image (omega arith),
        over,
        append-nil image,
        find_end_overruns partition_size 0 image (omega (arith, partition_roomy)) (omega arith)
            full,
      )

  -- What becomes of the buffer in which the search stopped at once.
  opened_erased :
      (rest : List ℕ) (y : ℕ) (dest aes_key : List ℕ)
      → C.pkcs5_pbkdf2_hmac_ext salt iterations (pointer_size * 8) ≡ (0, aes_key)
      → decrypt_to C F nul (y ∷ dest) (255 ∷ 0 ∷ rest) 1 ≡ some (1, 255 ∷ dest)
  unfolding decrypt_to string_with_aes depad_string_pkcs7 write_bytes read_bytes
  opened_erased rest y dest aes_key derived = rw derived

  -- An erased partition, 4096 bytes 0xFF, is not taken for a missing key: when the key derivation
  -- succeeds the reader returns length 1 and the byte 0xFF.
  pub flash_reader-erased :
      (y : ℕ) (heap dest : List ℕ) (aes_key : List ℕ)
      → F.find_first chip (partition_label label) ≡ some address
      → F.flash_read chip address partition_size ≡ (0, replicate partition_size 255)
      → length heap ≡ partition_size
      → C.pkcs5_pbkdf2_hmac_ext salt iterations (pointer_size * 8) ≡ (0, aes_key)
      → flash_reader C F nul chip heap (y ∷ dest) partition_size label ≡ some (1, 255 ∷ dest)
  unfolding flash_reader
  flash_reader-erased y heap dest aes_key found reads heap_size derived =
      let image : List ℕ = replicate partition_size 255 in
      let size : length image ≡ partition_size = length-replicate partition_size 255 in
      let over : drop (0 + length image) heap ≡ [] =
        drop-all (0 + length image) heap (omega arith) in
      let end_found : find_end partition_size 0 image ≡ some (splice 1 (0 ∷ []) image, 1) =
        find_end_at partition_size 0 1 image (omega arith) (omega (arith, partition_roomy))
          (λ j above below. absurd (omega arith))
          (all_ff-replicate 4 1 partition_size [] (omega (arith, partition_roomy)))
          (omega (arith, partition_roomy)) in
      rw
        (
          found,
          flash_reader,
          reads,
          write_bytes_lem heap 0 image (omega arith),
          over,
          append-nil image,
          end_found,
          replicate_cons partition_size (omega (arith, partition_roomy)),
        )
        (opened_erased (drop 1 (replicate (partition_size - 1) 255)) y dest aes_key derived)
