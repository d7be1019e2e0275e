-- ===== src/App/FromBoot.antt =====
-- The firmware from its start on: app_main and nfc_task of main/main.c, one after the other.
use rfid_encryption.Base.{◌≡◌, [], none, some}
use rfid_encryption.Device.{History, Device}
use rfid_encryption.Wifi
use rfid_encryption.Card.Laws.{asked_block}
use rfid_encryption.Tls.Protocol.Counts.{calls, showing}
use rfid_encryption.Tls.Protocol.Heap.{blocks}
use rfid_encryption.Nfc.Dark.{Scheduled}
use rfid_encryption.Nfc.Heap.{passes_shown}

-- Nothing has happened yet that concerns a card: none was asked to take a block, no block is in use, no lamp was
-- started, and the tasks ran as tasks do.
abbrev Fresh : History → Type 0
Fresh h =
    (asked_block h ≡ none)
    × (blocks h ≡ some [])
    × (passes_shown h ≡ 0)
    × (calls showing h ≡ 0)
    × Scheduled h
