-- ===== src/Nfc/Heap/Leaks.antt =====
-- What nfc_task leaves of the heap blocks that it and its requests take.
use rfid_encryption.Base.{
  ℕ, zero, suc, ◌+◌, ◌≡◌, ◌≤◌, ◌≢◌, refl, sym, ap, ◌∙◌, List, [], ◌∷◌, ◌++◌, some, done, Ensures,
  Ensures-done, Ensures-if, Ensures-after, Ensures-checked, arith, ◌==◌, not, ◌&&◌, length,
  length-append, append_assoc,
}
use rfid_encryption.Device.{
  History, Device, Env, Block, log, spi_init, begin, get_firmware_version, sam_config, task_delay,
  authenticate_block, read_data_block, read_passive_target, get_time, alloc, free, card_key_block,
}
use rfid_encryption.Flash.Aes.{Crypto}
use rfid_encryption.Flash.Storage.{FlashChip}
use rfid_encryption.Tls.Message.{Json}
use rfid_encryption.Tls.Loops.{ArraysFit}
use rfid_encryption.Tls.Protocol.Counts.{Run-none}
use rfid_encryption.Tls.Protocol.Heap.{
  blocks, Leak, no_leak, json_leak, new_key_leak, left, https_request_frees,
}
use rfid_encryption.Tls.Protocol.Refines.{https_request-Run}
use rfid_encryption.Nfc.{Tag, read_tag, show, ask, nfc_round, nfc_rounds, idle, nfc_task}
use rfid_encryption.Nfc.Rounds.{read_tag_keeps}
use rfid_encryption.Nfc.Heap.{
  passing, passes_shown, key_texts, Left, Step-passing, length-left, keep, show-passes,
  key_texts-append, key_texts-left,
}

module _ (env : Env) (json : Json) (C : Crypto) (F : FlashChip) (nul : ℕ) (chip : F.Chip) (fuel : ℕ)
    (heap : History → List ℕ) (fit : ArraysFit env) (base : List Block) (g : ℕ) where
  -- What a request leaves, and what its answer tells of it.
  abbrev Asked : ℕ → ℕ × Device → Type 0
  Asked n out =
      (bs : List Block) × (l : Leak) × (blocks out.1.history
        ≡ some (left l ++ (card_key_block ∷ (bs ++ base))))
      × (key_texts bs ≡ length bs)
      × (length bs ≤ n)
      × (passes_shown out.1.history ≤ g + length bs)
      × (out.0 ≢ 0 → l ≡ new_key_leak)

  ask-Asked :
      (n : ℕ) (t : Tag) (d : Device)
      → Left (card_key_block ∷ []) base g n d.history
      → Ensures (ask env json C F nul chip fuel heap t d) (Asked n)
  unfolding ask
  ask-Asked n t d (bs, c, all_texts, few, shown) =
      Ensures-if (not (t.key_rw == 0) && not (t.success == 0))
        (λ _. record {
          at = λ out e.
              let (passes, ret, run) =
                https_request-Run env json C F nul chip fuel (heap d.history) t.uid t.card_key d out
                  fit e in
              let (l, leaks, c') =
                https_request_frees env json C F nul chip fuel (heap d.history) t.uid t.card_key d
                  out (card_key_block ∷ (bs ++ base)) fit e c in
              (
                bs,
                l,
                c',
                all_texts,
                few,
                omega (arith, shown, Run-none passing (λ p q e st. Step-passing st) run),
                leaks,
              );
        })
        (λ _.
          Ensures-done (0, d) (bs, no_leak, c, all_texts, few, shown, λ pass. absurd (pass refl)))

  -- The round's key is given back from under what the request left.
  free_key :
      (l : Leak) (bs : List Block) (h : History)
      → blocks h ≡ some (left l ++ (card_key_block ∷ bs))
      → blocks (free card_key_block ∷ h) ≡ some (left l ++ bs)
  free_key no_leak bs h c = rw c
  free_key json_leak bs h c = rw c
  free_key new_key_leak bs h c = rw c

  show-Left :
      (n ret : ℕ) (d : Device)
      → Asked n (ret, d)
      → Left [] base g (suc n) (show (ret, log (free card_key_block) d)).history
  show-Left n zero d (bs, l, c, all_texts, few, shown, leaks) = (
    left l ++ bs,
    free_key l (bs ++ base) d.history c ∙ ap some (sym (append_assoc (left l) bs base)),
    omega (
      arith,
      all_texts,
      key_texts-left l,
      key_texts-append (left l) bs,
      length-append (left l) bs,
    ),
    omega (arith, few, length-left l, length-append (left l) bs),
    omega (arith, shown, length-append (left l) bs),
  )
  show-Left n (suc ret) d (bs, l, c, all_texts, few, shown, leaks) =
      let same : l ≡ new_key_leak = leaks (omega arith) in
      let one : length (left l) ≡ 1 = ap (λ (k : Leak). length (left k)) same in
      (
        left l ++ bs,
        free_key l (bs ++ base) d.history c ∙ ap some (sym (append_assoc (left l) bs base)),
        omega (
          arith,
          all_texts,
          key_texts-left l,
          key_texts-append (left l) bs,
          length-append (left l) bs,
        ),
        omega (arith, few, length-left l, length-append (left l) bs),
        omega (
          arith,
          shown,
          one,
          show-passes ret (log (free card_key_block) d),
          length-append (left l) bs,
        ),
      )

  nfc_round-Left :
      (n : ℕ) (d : Device)
      → Left [] base g n d.history
      → Ensures
          (nfc_round env json C F nul chip fuel heap d)
          λ d'. Left [] base g (suc n) d'.history
  unfolding nfc_round
  nfc_round-Left n d (bs, c, all_texts, few, shown) =
      let own : List Block = card_key_block ∷ [] in
      let begun : Device = log (alloc card_key_block) d in
      let taken : Left own base g n begun.history =
        (bs, rw c, all_texts, few, omega (arith, shown)) in
      let looked : Left own base g n (read_passive_target ∷ begun.history) =
        keep own base g n begun.history read_passive_target refl refl taken in
      Ensures-checked (read_tag env begun) _ λ r e.
        let read : Left own base g n r.1.history =
          read_tag_keeps env (λ (d' : Device). Left own base g n d'.history) begun r
            (λ d' u k m b t q.
              keep own base g n d'.history (authenticate_block u m b t k) refl refl q)
            (λ d' q. keep own base g n d'.history (read_data_block 4) refl refl q) looked
            (λ t. keep own base g n (read_passive_target ∷ begun.history) get_time refl refl looked)
            e in
        Ensures-after (ask env json C F nul chip fuel heap r.0 r.1) _ (ask-Asked n r.0 r.1 read)
          (λ pass asked. Ensures-done _ (show-Left n pass.0 pass.1 asked))

  nfc_rounds-Left :
      (rounds n : ℕ) (d : Device)
      → Left [] base g n d.history
      → Ensures
          (nfc_rounds env json C F nul chip rounds fuel heap d)
          λ d'. Left [] base g (n + rounds) d'.history
  unfolding nfc_rounds
  nfc_rounds-Left zero n d (bs, c, all_texts, few, shown) =
      Ensures-done d (bs, c, all_texts, omega (arith, few), shown)
  nfc_rounds-Left (suc rounds) n d so_far =
      Ensures-after (nfc_round env json C F nul chip fuel heap d) _ (nfc_round-Left n d so_far)
        (λ d' one. record {
          at = λ d'' e.
              let (bs, c, all_texts, few, shown) =
                (nfc_rounds-Left rounds (suc n) d' one).at d'' e in
              (bs, c, all_texts, omega (arith, few), shown);
        })

  idle-Left :
      (rounds : ℕ) (d : Device)
      → Left [] base g 0 d.history
      → Left [] base g 0 (idle env json C F nul chip rounds d).history
  unfolding idle
  idle-Left zero d so_far = so_far
  idle-Left (suc rounds) d so_far =
      idle-Left rounds (log (task_delay 1000) d)
        (keep [] base g 0 d.history (task_delay 1000) refl refl so_far)

-- On a device whose local arrays have their size, and from any blocks in use: however many rounds
-- nfc_task has run and whatever happened in them, no block was freed that was not in use, the blocks
-- that were in use before still are, and the blocks that its requests have left behind are at most one
-- for each round and at least one for each start of the green lamp. All of these are texts that name
-- a key of a card; the blocks of the private key, of the certificate and of the key that nfc_task has
-- read are given back.
pub nfc_task_leaks :
    (env : Env) (json : Json) (C : Crypto) (F : FlashChip) (nul : ℕ) (chip : F.Chip)
    (rounds fuel : ℕ) (heap : History → List ℕ) (d d' : Device) (base : List Block)
    → ArraysFit env
    → nfc_task env json C F nul chip rounds fuel heap d ≡ done d'
    → blocks d.history ≡ some base
    → (leaked : List Block) × (blocks d'.history ≡ some (leaked ++ base))
      × (key_texts leaked ≡ length leaked)
      × (length leaked ≤ rounds)
      × (passes_shown d'.history ≤ passes_shown d.history + length leaked)
unfolding nfc_task
nfc_task_leaks env json C F nul chip rounds fuel heap d d' base fit e before = all.at d' e
  where
    g : ℕ
    g = passes_shown d.history

    asked : Device
    asked = log get_firmware_version (log begin (log spi_init d))

    at_first : Left [] base g 0 asked.history
    at_first = ([], before, refl, omega arith, omega arith)

    all :
        Ensures
          (nfc_task env json C F nul chip rounds fuel heap d)
          (λ (d'' : Device). Left [] base g rounds d''.history)
    all =
        Ensures-if (env.firmware_version (begin ∷ spi_init ∷ d.history) == 0)
          (λ _.
            let (bs, c, all_texts, few, shown) =
              idle-Left env json C F nul chip fuel heap fit base g rounds asked at_first in
            Ensures-done _ (bs, c, all_texts, omega (arith, few), shown))
          (λ _. record {
            at = λ d'' e'.
                let (bs, c, all_texts, few, shown) =
                  (nfc_rounds-Left env json C F nul chip fuel heap fit base g rounds 0
                      (log sam_config asked)
                      (keep [] base g 0 asked.history sam_config refl refl at_first)).at
                    d'' e' in
                (bs, c, all_texts, omega (arith, few), shown);
          })
