-- ===== src/Keyboard/Queue.antt =====
-- The queue of keys that the ring of drivers/keyboard/pc-kbd.c stands for.
use koowaldah.Base.{
  ℕ, zero, suc, ◌-◌, ◌≤◌, ◌≡◌, List, [], ◌∷◌, ◌++◌, length, ltb, leb, ◌==◌, if◌then◌else◌,
}
use koowaldah.Keyboard.{keyboard_bufsize, Keyboard}

-- The `n` codes from `a` on.
unfoldable pub segment : (ℕ → ℕ) → ℕ → ℕ → List ℕ
segment buf a zero = []
segment buf a (suc n) = buf a ∷ segment buf (suc a) n

unfoldable pub keys : Keyboard → List ℕ
keys k =
    if leb k.read_idx k.write_idx
    then segment k.key_buf k.read_idx (k.write_idx - k.read_idx)
    else segment k.key_buf k.read_idx (keyboard_bufsize - k.read_idx)
      ++ segment k.key_buf 0 k.write_idx

-- The writer stands at 0 only in the ring that pckbd_open makes.
pub record IsRing (k : Keyboard) : Type 0 where
  pub read_le : k.read_idx ≤ 10
  pub write_le : k.write_idx ≤ 10
  pub fresh : k.write_idx ≡ 0 → k.read_idx ≡ 0

-- One place stays free behind a reader that has left the start.
abbrev pub capacity : Keyboard → ℕ
capacity k = if k.read_idx == 0 then 10 else 9

-- A queue that drops what it has no room for.
unfoldable pub offer : ℕ → ℕ → List ℕ → List ℕ
offer room key queue = if ltb (length queue) room then queue ++ key ∷ [] else queue
