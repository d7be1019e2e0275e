-- ===== src/Tests/Flash.antt =====
-- The flash and its encryption, on five bytes and on blocks.
use rfid_encryption.Base.{
  ℕ, ◌-◌, ◌≡◌, ◌≢◌, refl, List, [], ◌∷◌, ◌++◌, none, some, ◌>>=◌, false, true, replicate, length,
  take, splice, arith, length-replicate, append-nil, ap, ◌∙◌, zero, suc, get_elem?, inl, inr, ◌⊎◌,
}
use rfid_encryption.Flash.Padding.{pad_string_pkcs7, depad_string_pkcs7}
use rfid_encryption.Flash.Padding.RoundTrip.{depad-pad, depad-pad_lossy}
use rfid_encryption.Flash.Aes.{string_with_aes}
use rfid_encryption.Flash.Aes.RoundTrip.{string_with_aes_round_trip}
use rfid_encryption.Flash.Storage.{flash_writer, flash_reader, partition_size, all_ff}
use rfid_encryption.Flash.Storage.RoundTrip.{flash_reader-flash_writer}
use rfid_encryption.Flash.Storage.InClear.{flash_writer_in_clear}
use rfid_encryption.Flash.Storage.Failures.{flash_reader_overruns, flash_reader-erased}
use rfid_encryption.Tests.Fixtures.{
  toy_crypto, toy_key, toy_crypto-IsLawful, no_schedule, toy_flash, toy_flash-IsLawful, toy_der,
  toy_der_size, toy_decode, toy_heap, toy_heap_size, ends_once, roomy, key_bytes, erased_reads,
}

abbrev small_buffer : List ℕ
small_buffer = key_bytes ++ replicate 15 0

depad-pad_example :
    (buf' : List ℕ) × ((pad_string_pkcs7 small_buffer 5 >>= λ r. depad_string_pkcs7 0 r.0 r.1)
      ≡ some (buf', 5))
    × (take 5 buf' ≡ take 5 small_buffer)
depad-pad_example = depad-pad 0 small_buffer 5 (omega arith) (omega arith) (omega arith)

-- A full block that ends with the byte 3 loses three bytes.
abbrev full_block : List ℕ
full_block = replicate 15 9 ++ (3 ∷ [])

depad-pad_lossy_example :
    (pad_string_pkcs7 full_block 16 >>= λ r. depad_string_pkcs7 0 r.0 r.1)
    ≡ some (splice 13 (0 ∷ []) full_block, 13)
depad-pad_lossy_example =
    depad-pad_lossy 0 full_block 16 3 refl (omega arith) (omega arith) (omega arith) refl
      (omega arith) (omega arith)

string_with_aes_round_trip_example :
    (buf' : List ℕ) × ((string_with_aes toy_crypto 0 small_buffer 5 false >>= λ r.
    string_with_aes toy_crypto 0 r.0 r.1 true)
      ≡ some (buf', 5))
    × (take 5 buf' ≡ take 5 small_buffer)
string_with_aes_round_trip_example =
    string_with_aes_round_trip toy_crypto toy_key toy_crypto-IsLawful 0 small_buffer 5 (omega arith)
      (omega arith) (omega arith)

flash_writer_in_clear_example :
    (chip' : List ℕ) × (flash_writer no_schedule toy_flash 0 toy_decode toy_heap []
      ≡ some (false, chip'))
    × (toy_flash.flash_read chip' 0x10000 partition_size
        ≡ (0, take 5 toy_der ++ replicate 11 11 ++ replicate (partition_size - 16) 255))
flash_writer_in_clear_example =
    flash_writer_in_clear no_schedule toy_key toy_flash 0x10000 0 toy_decode [] toy_heap toy_der 0 5
      toy_flash-IsLawful refl (omega arith) refl toy_der_size (omega arith) (omega (arith, roomy))

flash_reader-flash_writer_example :
    (chip' : List ℕ) × (flash_writer toy_crypto toy_flash 0 toy_decode toy_heap []
      ≡ some (false, chip'))
    × (flash_reader toy_crypto toy_flash 0 chip' toy_heap toy_heap partition_size false
        ≡ some (5, splice 0 (take 5 toy_der) toy_heap))
flash_reader-flash_writer_example =
    flash_reader-flash_writer toy_crypto toy_key toy_crypto-IsLawful toy_flash 0x10000
      toy_flash-IsLawful 0 toy_decode [] toy_heap toy_heap toy_der toy_heap 0 5 refl toy_der_size
      toy_heap_size (omega arith) roomy (omega (arith, roomy, toy_heap_size)) ends_once

-- A partition of 4096 zeros: the search for its end leaves the buffer.
abbrev zeros : List ℕ
zeros = replicate partition_size 0

zero_or_none :
    (n i : ℕ)
    → (get_elem? (replicate {A = ℕ} n 0) i ≡ none) ⊎ (get_elem? (replicate {A = ℕ} n 0) i ≡ some 0)
zero_or_none zero i = inl refl
zero_or_none (suc n) zero = inr refl
zero_or_none (suc n) (suc i) = zero_or_none n i

stops :
    (xs : List ℕ) (i : ℕ)
    → (get_elem? xs i ≡ none) ⊎ (get_elem? xs i ≡ some 0)
    → all_ff 4 xs i ≢ some true
unfolding all_ff
stops xs i (inl h) e = let out : none ≡ some true = rw h at e in cc
stops xs i (inr h) e = let out : some false ≡ some true = rw h at e in cc

full_reads : toy_flash.flash_read zeros 0x10000 partition_size ≡ (0, zeros)
full_reads =
    let none_left : partition_size - length zeros ≡ 0 =
      omega (arith, length-replicate {A = ℕ} partition_size 0) in
    ap (λ (n : ℕ). (0, zeros ++ replicate n 255)) none_left
    ∙ ap (λ (xs : List ℕ). (0, xs)) (append-nil zeros)

flash_reader_overruns_example :
    flash_reader toy_crypto toy_flash 0 zeros toy_heap toy_heap partition_size false ≡ none
flash_reader_overruns_example =
    flash_reader_overruns toy_crypto toy_flash 0 zeros 0x10000 false toy_heap toy_heap zeros refl
      full_reads (length-replicate {A = ℕ} partition_size 0) toy_heap_size
      (λ j above. stops zeros j (zero_or_none partition_size j))

flash_reader-erased_example :
    flash_reader toy_crypto toy_flash 0 [] toy_heap toy_heap partition_size true
    ≡ some (1, 255 ∷ replicate (partition_size - 1) 0)
flash_reader-erased_example =
    flash_reader-erased toy_crypto toy_flash 0 [] 0x10000 true 0 toy_heap
      (replicate (partition_size - 1) 0) toy_key refl erased_reads toy_heap_size refl
