-- ===== src/Card.antt =====
-- main/card_reader.c: the write of a new key to block 4 of the card, and the blinking tasks.
pub mod Laws
pub mod Lamps
pub mod Memory
pub mod Schedule
use rfid_encryption.Base.{
  ℕ, zero, suc, List, [], ◌∷◌, ◌++◌, take, replicate, Option, none, some, ◌>>=◌, read_bytes,
  write_bytes,
}
use rfid_encryption.Device.{
  Event, Device, Env, Colour, red, green, blue, authenticate_block, write_data_block, task_delay,
  set_level, task_delete, log,
}

-- `keyA` of main.c
abbrev pub key_a : List ℕ
key_a = replicate 6 0xff

-- `block4[16] = {0}; memcpy(block4+1, data, 15);`
unfoldable pub block4 : List ℕ → Option (List ℕ)
block4 bytes = read_bytes 15 bytes 0 >>= λ copied. write_bytes (replicate 16 0) 1 copied

-- The call that asks for the write, and the result. Whether the card took it is the driver's answer,
-- `data_block_written`: see Card/Memory.
abbrev pub written : List ℕ → Device → ℕ × Device
written block d = (0, log (write_data_block 4 block) d)

module _ (env : Env) where
  -- The result, which is 0 whatever the card answers, and the device. The authentication's answer
  -- is not looked at.
  unfoldable pub card_write_on_block : List ℕ → List ℕ → Device → Option (ℕ × Device)
  unfolding block4
  card_write_on_block uid bytes d = block4 bytes >>= λ block.
      let authenticated = log (authenticate_block uid 4 4 0 key_a) d in
      let ret = env.data_block_written authenticated.history 4 block in
      some (written block authenticated)

-- `for (i = 0; i < rounds; i++)` of a blinking task: the lamp is off, then on.
unfoldable pub blink : ℕ → ℕ → ℕ → ℕ → Device → Device
blink zero gpio off on d = d
blink (suc rounds) gpio off on d =
    blink rounds gpio off on (
      log (task_delay on)
        (log (set_level gpio 1) (log (task_delay off) (log (set_level gpio 0) d))))

abbrev pub gpio_of : Colour → ℕ
gpio_of red = 2
gpio_of green = 15
gpio_of blue = 4

abbrev run_lamp : ℕ → ℕ → ℕ → ℕ → Device → Device
run_lamp rounds gpio off on d =
    log task_delete (log (set_level gpio 0) (blink rounds gpio off on d))

-- blink_task_red, blink_task_green and blink_task_blue, delays in milliseconds.
unfoldable pub blink_task : Colour → Device → Device
unfolding blink
blink_task red d = run_lamp 5 (gpio_of red) 900 100 d
blink_task green d = run_lamp 5 (gpio_of green) 900 100 d
blink_task blue d = run_lamp 3 (gpio_of blue) 250 250 d
