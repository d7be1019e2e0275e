-- ===== src/Card/Lamps.antt =====
-- What the blinking tasks of main/card_reader.c do to their lamps.
use rfid_encryption.Base.{ℕ, ◌+◌, ◌≡◌, refl, [], ◌∷◌, arith}
use rfid_encryption.Device.{
  History, Device, Colour, red, green, blue, task_delay, set_level, task_delete,
}
use rfid_encryption.Card.{blink, blink_task, gpio_of}

-- The milliseconds of all delays.
abbrev pub delays : History → ℕ
delays [] = 0
delays (task_delay ms ∷ h) = delays h + ms
delays (_ ∷ h) = delays h

abbrev pub duration : Colour → ℕ
duration red = 5000
duration green = 5000
duration blue = 1500

-- The blinking task of each colour takes 5 seconds, or 1.5 for blue, and then ends with its own lamp
-- switched to 0.
pub blink_task_lem :
    (c : Colour) (d : Device)
    → (delays (blink_task c d).history ≡ delays d.history + duration c)
      × ((h : History) × ((blink_task c d).history ≡ task_delete ∷ set_level (gpio_of c) 0 ∷ h))
unfolding blink_task blink
blink_task_lem red d = (omega arith, (_, refl))
blink_task_lem green d = (omega arith, (_, refl))
blink_task_lem blue d = (omega arith, (_, refl))
