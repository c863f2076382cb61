-- ===== src/Keyboard.antt =====
-- drivers/keyboard/pc-kbd.c: the ring of scan codes between the keyboard's interrupt and its reader. The
-- port's byte, the table pckbd_sctrans and what scheduler_enqueue answers are arguments.
pub mod Queue
pub mod Segment
pub mod Push
pub mod Interrupt
pub mod Pull
use koowaldah.Base.{
  ℕ, ◌+◌, ◌-◌, ◌/◌, ◌%◌, ◌^◌, Bool, true, false, Option, none, some, ◌==◌, if◌then◌else◌, update,
}

abbrev pub keyboard_bufsize : ℕ
keyboard_bufsize = 10

-- The variables of the file; the queue of the waiting reader is left to the scheduler.
pub record Keyboard : Type 0 where
  pub key_buf : ℕ → ℕ
  pub read_idx : ℕ
  pub write_idx : ℕ
  pub users : ℕ

unfoldable pub rewind : ℕ → ℕ
rewind idx = if idx == keyboard_bufsize then 0 else idx

unfoldable pub put_key : ℕ → Keyboard → Keyboard
put_key scancode k =
    if k.write_idx + 1 == k.read_idx
    then k
    else record k { key_buf = update k.key_buf k.write_idx scancode; write_idx = k.write_idx + 1 }

-- pckbd_intr on a byte of the port, with whether it calls scheduler_enqueue.
unfoldable pub pckbd_intr : ℕ → Keyboard → Keyboard × Bool
pckbd_intr scancode k =
    if k.users == 0
    then (k, false)
    else if scancode / 2 ^ 7 % 2 == 1
    then (k, false)
    else (put_key scancode (record k { write_idx = rewind k.write_idx }), true)

-- A read gives a key's entry of the table, or 0 after scheduler_dequeue and scheduler_yield.
pub data KeyRead : Type 0 where
  key : ℕ → KeyRead
  waited : KeyRead

unfoldable pub pckbd_read : (ℕ → ℕ) → Keyboard → Keyboard × KeyRead
pckbd_read sctrans k = if k.read_idx == k.write_idx then (k, waited) else (
  record k { read_idx = rewind k.read_idx + 1 },
  key (sctrans (k.key_buf (rewind k.read_idx))),
)

pub data KeyboardResult : Type 0 where
  opened : KeyboardResult
  closed : KeyboardResult
  ebusy : KeyboardResult
  einval : KeyboardResult

unfoldable pub pckbd_open : Keyboard → Keyboard × KeyboardResult
pckbd_open k =
    if k.users == 0
    then (record k { users = 1; read_idx = 0; write_idx = 0 }, opened)
    else (k, ebusy)

-- pckbd_close; `waiting` is the answer of scheduler_enqueue.
unfoldable pub pckbd_close : Bool → Keyboard → Option (Keyboard × KeyboardResult)
pckbd_close waiting k =
    if k.users == 0
    then some (k, einval)
    else if waiting
    then none
    else some (record k { users = k.users - 1 }, closed)

abbrev pub read_value : KeyRead → ℕ
read_value (key v) = v
read_value waited = 0

-- The two bytes that pckbd_dev_read stores in the buffer.
unfoldable pub pckbd_dev_read : (ℕ → ℕ) → Keyboard → Keyboard × ℕ × ℕ
pckbd_dev_read sctrans k =
    let r = pckbd_read sctrans k in (r.0, read_value r.1 / 2 ^ 8 % 2 ^ 8, read_value r.1 % 2 ^ 8)
