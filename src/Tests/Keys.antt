-- ===== src/Tests/Keys.antt =====
-- drivers/keyboard/pc-kbd.c: a ring with eight keys whose writer stands at the end, and a full one.
use koowaldah.Base.{ℕ, ◌+◌, ◌≡◌, refl, arith, true, false, [], ◌∷◌, length, some, none}
use koowaldah.Keyboard.{
  Keyboard, rewind, put_key, pckbd_intr, pckbd_read, pckbd_open, pckbd_close, pckbd_dev_read, key,
  ebusy, einval,
}
use koowaldah.Keyboard.Queue.{keys, IsRing}
use koowaldah.Keyboard.Interrupt.{Arrives, pckbd_intr_lem, pckbd_intr-overrun}
use koowaldah.Keyboard.Pull.{Departs, pckbd_read_lem}

abbrev ring : Keyboard
ring = record { key_buf = λ i. i + 30; read_idx = 2; write_idx = 10; users = 1 }

ring-IsRing : IsRing ring
ring-IsRing = record {
  read_le = omega arith;
  write_le = omega arith;
  fresh = λ z. absurd (omega (arith, z));
}

pckbd_intr_lem_example : Arrives 57 ring (pckbd_intr 57 ring)
pckbd_intr_lem_example =
    pckbd_intr_lem 57 ring ring-IsRing (λ z. omega (arith, z)) (omega arith)
      (λ h. omega (arith, h.1))

pckbd_read_lem_example : Departs (λ c. c) ring (keys ring) (pckbd_read (λ c. c) ring)
pckbd_read_lem_example = pckbd_read_lem (λ c. c) ring ring-IsRing

abbrev full : Keyboard
full = record { key_buf = λ i. i + 30; read_idx = 0; write_idx = 10; users = 1 }

pckbd_intr-overrun_example : (length (keys full) ≡ 10) × (keys (pckbd_intr 57 full).0 ≡ 57 ∷ [])
pckbd_intr-overrun_example =
    pckbd_intr-overrun 57 full (λ z. omega (arith, z)) (omega arith) refl refl

abbrev unused : Keyboard
unused = record { key_buf = λ _. 0; read_idx = 0; write_idx = 0; users = 0 }

-- Only one thread has the keyboard open.
open_twice : (pckbd_open (pckbd_open unused).0).1 ≡ ebusy
unfolding pckbd_open
open_twice = refl

close_unused : pckbd_close false unused ≡ some (unused, einval)
unfolding pckbd_close
close_unused = refl

-- A thread that waits when the keyboard is closed is a bug.
close_waiting : pckbd_close true ring ≡ none
unfolding pckbd_close
close_waiting = refl

abbrev two_pressed : Keyboard
two_pressed = (pckbd_intr 31 (pckbd_intr 158 (pckbd_intr 30 (pckbd_open unused).0).0).0).0

abbrev read_bytes : Keyboard × ℕ × ℕ
read_bytes = pckbd_dev_read (λ c. c + 256) two_pressed

-- Two keys are pressed and the first one is released; the device gives the two bytes of its entry.
read_device : (read_bytes.1 ≡ 1) × (read_bytes.2 ≡ 30)
unfolding pckbd_dev_read pckbd_intr pckbd_open pckbd_read put_key rewind
read_device = (refl, refl)

abbrev nine_read : Keyboard
nine_read = record (pckbd_intr 57 (record full { read_idx = 1 })).0 { read_idx = 10 }

-- With one of ten keys read the eleventh is dropped but moves the writer to the start; behind nine more
-- reads no key is left, and the first one is read once more.
read_stale : (pckbd_read (λ c. c) nine_read).1 ≡ key 30
unfolding pckbd_intr pckbd_read put_key rewind
read_stale = refl
