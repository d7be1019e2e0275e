-- ===== src/Nfc/Key.antt =====
-- What nfc_task reads from a card that took a key.
use rfid_encryption.Base.{
  ℕ, ◌<◌, ◌≡◌, refl, sym, ap, ◌∙◌, List, [], ◌∷◌, ◌++◌, Bool, true, false, Option, none, some,
  ◌>>=◌, length, read_bytes, read_bytes_lem, take-append, length-append, arith, ◌==◌, if◌then◌else◌,
  replicate,
}
use rfid_encryption.Device.{
  History, Device, Env, log, read_passive_target, authenticate_block, get_time,
}
use rfid_encryption.Card.{key_a}
use rfid_encryption.Card.Memory.{held}
use rfid_encryption.Nfc.{Tag, read_key, read_tag}

-- A card keeps what it took, and the reader reads it over SPI as the comment in nfc_task says: a block
-- that starts with a zero byte is read from its second byte on, with some byte at the end. This holds of
-- a read that the driver does not report as failed, with 0, right after an authentication of the card.
abbrev pub ReadsBack : Env → (History → ℕ) → Type 0
ReadsBack env last =
    (h : History) (uid key : List ℕ) (n : ℕ)
    → held env.data_block_written uid h ≡ some (0 ∷ key)
    → let opened = authenticate_block uid n 4 0 key_a ∷ h in
      0 < (env.data_block opened 4).0 → (env.data_block opened 4).1 ≡ key ++ (last opened ∷ [])

-- The tag is made of what the driver gave.
tag_of :
    (o : Option (List ℕ)) (success key_rw : ℕ) (uid : List ℕ) (d : Device) (r : Tag × Device)
    → ((o >>= λ card_key. some ((key_rw, card_key), d)) >>= λ (k : (ℕ × List ℕ) × Device).
        some (record { success = success; uid = uid; key_rw = k.0.0; card_key = k.0.1 }, k.1))
      ≡ some r
    → (o ≡ some r.0.card_key) × (key_rw ≡ r.0.key_rw) × (uid ≡ r.0.uid)
tag_of none success key_rw uid d r e = cc
tag_of (some card_key) success key_rw uid d r e =
    let same : (record { success = success; uid = uid; key_rw = key_rw; card_key = card_key }, d)
        ≡ r =
      cc in
    (
      ap (λ (q : Tag × Device). some q.0.card_key) same,
      ap (λ (q : Tag × Device). q.0.key_rw) same,
      ap (λ (q : Tag × Device). q.0.uid) same,
    )

timed_held :
    (answer : History → ℕ → List ℕ → ℕ) (uid : List ℕ) (b : Bool) (t : ℕ) (d : Device)
    → held answer uid (if b then d else log get_time (record d { start_time = t })).history
      ≡ held answer uid d.history
timed_held answer uid true t d = refl
timed_held answer uid false t d = refl

-- The copy of 15 bytes of what was read.
copied :
    (key_rw last : ℕ) (bytes key card_key : List ℕ)
    → 0 < key_rw
    → length key ≡ 15
    → bytes ≡ key ++ (last ∷ [])
    → read_bytes 15 (if key_rw == 0 then replicate 16 0 else bytes) 0 ≡ some card_key
    → card_key ≡ key
copied key_rw last bytes key card_key read size is e =
    let there : (key_rw == 0) ≡ false = ground arith in
    let out : some key ≡ some card_key =
      sym (
        read_bytes_lem 15 (key ++ (last ∷ [])) 0
          (omega (arith, size, length-append key (last ∷ [])))
        ∙ ap some (take-append 15 key (last ∷ []) size))
      ∙ rw (there, is) at e in
    cc

-- A successful read of a card that holds a zero byte and a key of 15 bytes gives the key.
pub read_tag-held :
    (env : Env) (last : History → ℕ) (d d' : Device) (t : Tag) (key : List ℕ)
    → ReadsBack env last
    → length key ≡ 15
    → held env.data_block_written t.uid d.history ≡ some (0 ∷ key)
    → read_tag env d ≡ some (t, d')
    → 0 < t.key_rw
    → t.card_key ≡ key
unfolding read_tag read_key
read_tag-held env last d d' t key back size holds e read =
    let looked : Device = log read_passive_target d in
    let none_found : Bool = (env.passive_target d.history).success == 0 in
    let timed : Device =
      if none_found
      then looked
      else log get_time (record looked { start_time = env.time looked.history }) in
    let (copy, key_rw, uid) = tag_of _ _ _ _ _ (t, d') e in
    let still : held env.data_block_written _ timed.history ≡ some (0 ∷ key) =
      timed_held env.data_block_written _ none_found (env.time looked.history) looked
      ∙ ap (λ u. held env.data_block_written u d.history) uid
      ∙ holds in
    copied _ _ _ key t.card_key (omega (arith, key_rw, read)) size
      (back timed.history _ key _ still (omega (arith, key_rw, read))) copy
