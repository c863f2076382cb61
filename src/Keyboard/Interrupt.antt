-- ===== src/Keyboard/Interrupt.antt =====
-- pckbd_intr of drivers/keyboard/pc-kbd.c as the arrival of a key at the queue.
use koowaldah.Base.{
  ℕ, ◌<◌, ◌≤◌, ◌≡◌, ◌≢◌, ◌⊎◌, inl, inr, refl, ap, ◌∙◌, arith, Bool, true, [], ◌∷◌, length,
}
use koowaldah.Keyboard.{Keyboard, rewind, pckbd_intr}
use koowaldah.Keyboard.Queue.{segment, keys, IsRing, capacity, offer}
use koowaldah.Keyboard.Segment.{length-segment}
use koowaldah.Keyboard.Push.{
  pckbd_intr_pressed, put_key_lem, put_key-IsRing, put_key_store, rewind_end, keys-rewind,
}

-- What the interrupt of a pressed key does: the ring stays in order, the key goes to the end of the
-- queue if that has room, and the reader is woken.
abbrev pub Arrives : ℕ → Keyboard → Keyboard × Bool → Type 0
Arrives s k r = IsRing r.0 × (keys r.0 ≡ offer (capacity k) s (keys k)) × (r.1 ≡ true)

rewind_lt : (i : ℕ) → i ≤ 10 → rewind i < 10
unfolding rewind
rewind_lt i le = ground arith

rewind_zero : (i : ℕ) → rewind i ≡ 0 → (i ≡ 0) ⊎ (i ≡ 10)
unfolding rewind
rewind_zero i e = ground (arith, e)

-- In a ring in order with an open keyboard, unless the writer's index is 10 and the reader's 0 or 1, a
-- pressed key (a code below 128) goes to the end of the queue if fewer than 9 keys wait, or fewer than
-- 10 where the reader's index is 0, and is dropped otherwise; the ring stays in order, and the reader is
-- woken.
pub pckbd_intr_lem :
    (s : ℕ) (k : Keyboard)
    → IsRing k
    → k.users ≢ 0
    → s < 128
    → ¬ ((k.write_idx ≡ 10) × (k.read_idx ≤ 1))
    → Arrives s k (pckbd_intr s k)
pckbd_intr_lem s k ring used small free =
    let k1 = record k { write_idx = rewind k.write_idx } in
    let below = rewind_lt k.write_idx ring.write_le in
    rw (pckbd_intr_pressed s k used small) (
      put_key-IsRing s k1 ring.read_le below (λ z one. elim (rewind_zero k.write_idx z) [
        | inl start ↦ omega (arith, ring.fresh start, one)
        | inr at_end ↦ free (at_end, omega (arith, one))
      ]),
      put_key_lem s k1 ring.read_le below ∙ ap (offer (capacity k) s) (keys-rewind k ring free),
      refl,
    )

-- With an open keyboard, the reader's index at 0 and the writer's at 10, ten keys wait, and the next
-- pressed key leaves the queue with itself alone.
pub pckbd_intr-overrun :
    (s : ℕ) (k : Keyboard)
    → k.users ≢ 0
    → s < 128
    → k.read_idx ≡ 0
    → k.write_idx ≡ 10
    → (length (keys k) ≡ 10) × (keys (pckbd_intr s k).0 ≡ s ∷ [])
unfolding keys segment
pckbd_intr-overrun s k used small read write =
    let k1 = record k { write_idx = 0 } in
    (
      rw (read, write) (length-segment k.key_buf 0 10),
      rw
          (
            pckbd_intr_pressed s k used small,
            write,
            rewind_end,
            put_key_store s k1 (λ e. omega (arith, e, read)),
            read,
          )
          refl,
    )
