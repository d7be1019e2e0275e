-- ===== src/Tests/Card.antt =====
-- The card's key, the texts and the messages.
use rfid_encryption.Base.{
  ℕ, ◌≡◌, List, [], ◌∷◌, ◌++◌, some, none, replicate, length, arith, drop, c_string,
}
use rfid_encryption.Device.{
  Event, red, task_create_blink, read_passive_target, task_delay, History, blue, task_delete,
  set_level, Env,
}
use rfid_encryption.Card.{blink, blink_task}
use rfid_encryption.Card.Memory.{held, selected}
use rfid_encryption.Card.Schedule.{Tasks, Acts, Run, Ended, level, script}
use rfid_encryption.Card.Schedule.Dark.{Watched, Run-dark}
use rfid_encryption.Hex.{bytes_to_hex_string}
use rfid_encryption.Hex.Laws.{bytes_to_hex_string_lem, unhex}
use rfid_encryption.Nfc.Key.{ReadsBack}
use rfid_encryption.Tests.Fixtures.{toy_env}

-- Cards that keep their block. The reader puts a 9 at the end of what it reads.
abbrev pub keep_env : Env
keep_env = record toy_env {
  data_block = λ h number. elim (held toy_env.data_block_written (selected h) h) [
    | none ↦ (0, replicate 16 0)
    | some block ↦ (1, drop 1 block ++ (9 ∷ []))
  ];
}

pub keeps : ReadsBack keep_env (λ h. 9)
keeps h uid key n holds ok = rw (holds, keep_env)

bytes_to_hex_string_lem_example :
    (buf' : List ℕ) × (bytes_to_hex_string (0x1f ∷ 0xa0 ∷ []) 0 (replicate 5 1) ≡ some buf')
    × (length (c_string buf') ≡ 4)
    × (unhex (c_string buf') ≡ 0x1f ∷ 0xa0 ∷ [])
bytes_to_hex_string_lem_example =
    bytes_to_hex_string_lem 0x1f (0xa0 ∷ []) (replicate 5 1) (omega arith, (omega arith, tt))
      (omega arith)

-- Two lamps, of which the blue one has begun.
abbrev blue_left : List Event
blue_left =
    task_delay 250
    ∷ set_level 4 1
    ∷ task_delay 250
    ∷ set_level 4 0
    ∷ task_delay 250
    ∷ set_level 4 1
    ∷ task_delay 250
    ∷ set_level 4 0
    ∷ task_delay 250
    ∷ set_level 4 1
    ∷ task_delay 250
    ∷ set_level 4 0
    ∷ task_delete
    ∷ []

abbrev two_created : History
two_created = task_create_blink blue ∷ read_passive_target ∷ task_create_blink red ∷ []

abbrev two_lamps : Tasks
two_lamps = blue_left ∷ script red ∷ []

blue_begins : Run two_lamps (set_level 4 0 ∷ two_created)
unfolding blink_task blink
blue_begins =
    Run.act (Run.create blue (Run.other read_passive_target tt (Run.create red Run.boot)))
      (Acts.here (set_level 4 0) blue_left (script red ∷ []))

Run-dark_example :
    ((gpio : ℕ) → Ended two_lamps → level gpio (set_level 4 0 ∷ two_created) ≡ 0)
    × ((gpio : ℕ) → Watched gpio two_lamps (set_level 4 0 ∷ two_created))
    × ((calls : History) × (ts' : Tasks) × Run ts' (calls ++ (set_level 4 0 ∷ two_created))
        × Ended ts')
Run-dark_example = Run-dark two_lamps (set_level 4 0 ∷ two_created) blue_begins
