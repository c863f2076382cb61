-- ===== src/Keyboard/Push.antt =====
-- put_key of the interrupt in drivers/keyboard/pc-kbd.c on the queue of keys.
use koowaldah.Base.{
  ℕ, suc, ◌+◌, ◌-◌, ◌<◌, ◌≤◌, ◌≡◌, ◌≢◌, inl, inr, refl, sym, ap, ◌∙◌, arith, append-nil,
  append_assoc, length-append, true, List, [], ◌∷◌, ◌++◌, length, update, Bool-cases, ◌==◌, ==→eq,
  ==→ne, ==_self, ne→==, ltb, ltb→lt, ltb→le,
}
use koowaldah.Keyboard.{Keyboard, rewind, put_key, pckbd_intr}
use koowaldah.Keyboard.Queue.{segment, keys, IsRing, capacity, offer}
use koowaldah.Keyboard.Segment.{length-segment, segment-update, segment_end}

-- The keys of a ring that is not wrapped round, and of one that is.
pub keys_straight :
    (k : Keyboard)
    → k.read_idx ≤ k.write_idx
    → keys k ≡ segment k.key_buf k.read_idx (k.write_idx - k.read_idx)
unfolding keys
keys_straight k le = ground arith

pub keys_wrapped :
    (k : Keyboard)
    → k.write_idx < k.read_idx
    → keys k ≡ segment k.key_buf k.read_idx (10 - k.read_idx) ++ segment k.key_buf 0 k.write_idx
unfolding keys
keys_wrapped k lt = ground arith

-- A key that is pressed reaches put_key.
pub pckbd_intr_pressed :
    (s : ℕ) (k : Keyboard)
    → k.users ≢ 0
    → s < 128
    → pckbd_intr s k ≡ (put_key s (record k { write_idx = rewind k.write_idx }), true)
unfolding pckbd_intr
pckbd_intr_pressed s k used small = ground (arith, used, small)

offer_room : (room s : ℕ) (q : List ℕ) → length q < room → offer room s q ≡ q ++ s ∷ []
unfolding offer
offer_room room s q lt = ground arith

offer_full : (room s : ℕ) (q : List ℕ) → room ≤ length q → offer room s q ≡ q
unfolding offer
offer_full room s q le = ground arith

pub put_key_store :
    (s : ℕ) (k : Keyboard)
    → k.write_idx + 1 ≢ k.read_idx
    → put_key s k
      ≡ record k { key_buf = update k.key_buf k.write_idx s; write_idx = k.write_idx + 1 }
unfolding put_key
put_key_store s k ne = rw (ne→== (k.write_idx + 1) k.read_idx ne) refl

put_key_full : (s : ℕ) (k : Keyboard) → k.write_idx + 1 ≡ k.read_idx → put_key s k ≡ k
unfolding put_key
put_key_full s k e = rw (e, ==_self k.read_idx) refl

capacity_le : (k : Keyboard) → 9 ≤ capacity k
capacity_le k = ground arith

capacity_start : (k : Keyboard) → k.read_idx ≡ 0 → capacity k ≡ 10
capacity_start k e = rw e refl

capacity_moved : (k : Keyboard) → k.read_idx ≢ 0 → capacity k ≡ 9
capacity_moved k ne = rw (ne→== k.read_idx 0 ne) refl

length_straight :
    (k : Keyboard) → k.read_idx ≤ k.write_idx → length (keys k) ≡ k.write_idx - k.read_idx
length_straight k le =
    rw (keys_straight k le) (length-segment k.key_buf k.read_idx (k.write_idx - k.read_idx))

length_wrapped :
    (k : Keyboard) → k.write_idx < k.read_idx → length (keys k) ≡ 10 - k.read_idx + k.write_idx
length_wrapped k lt =
    rw
      (
        keys_wrapped k lt,
        length-append (segment k.key_buf k.read_idx (10 - k.read_idx))
            (segment k.key_buf 0 k.write_idx),
        length-segment k.key_buf k.read_idx (10 - k.read_idx),
        length-segment k.key_buf 0 k.write_idx,
      )
      refl

abbrev pub stored : ℕ → Keyboard → Keyboard
stored s k = record k { key_buf = update k.key_buf k.write_idx s; write_idx = k.write_idx + 1 }

put_straight :
    (s : ℕ) (k : Keyboard)
    → k.read_idx ≤ k.write_idx
    → k.write_idx < 10
    → keys (stored s k) ≡ offer (capacity k) s (keys k)
put_straight s k le write =
    let shape = length_straight k le in
    let room : length (keys k) < capacity k = elim (Bool-cases (k.read_idx == 0)) [
      | inl start ↦ omega (arith, shape, capacity_start k (==→eq k.read_idx 0 start))
      | inr moved ↦ omega (arith, shape, ==→ne k.read_idx 0 moved, capacity_le k)
    ] in
    let e : k.write_idx + 1 - k.read_idx ≡ suc (k.write_idx - k.read_idx) = omega arith in
    keys_straight (stored s k) (omega arith)
    ∙ rw e (
        segment_end k.key_buf k.write_idx s k.read_idx (k.write_idx - k.read_idx) (omega arith)
        ∙ ap (λ q. q ++ s ∷ []) (sym (keys_straight k le))
        ∙ sym (offer_room (capacity k) s (keys k) room))

put_wrapped :
    (s : ℕ) (k : Keyboard)
    → k.write_idx < k.read_idx
    → k.write_idx + 1 ≢ k.read_idx
    → k.read_idx ≤ 10
    → keys (stored s k) ≡ offer (capacity k) s (keys k)
put_wrapped s k lt ne read =
    let shape = length_wrapped k lt in
    let room : length (keys k) < capacity k = omega (arith, shape, capacity_le k, ne) in
    let e : k.write_idx + 1 ≡ suc k.write_idx = omega arith in
    let back = segment k.key_buf k.read_idx (10 - k.read_idx) in
    keys_wrapped (stored s k) (omega (arith, ne))
    ∙ rw
        (
          segment-update k.key_buf k.write_idx s k.read_idx (10 - k.read_idx) (inl lt),
          e,
          segment_end k.key_buf k.write_idx s 0 k.write_idx (omega arith),
        )
        (sym (append_assoc back (segment k.key_buf 0 k.write_idx) (s ∷ []))
          ∙ ap (λ q. q ++ s ∷ []) (sym (keys_wrapped k lt))
          ∙ sym (offer_room (capacity k) s (keys k) room))

-- put_key offers the key to the queue, whether it stores the key or not.
pub put_key_lem :
    (s : ℕ) (k : Keyboard)
    → k.read_idx ≤ 10
    → k.write_idx < 10
    → keys (put_key s k) ≡ offer (capacity k) s (keys k)
put_key_lem s k read write = elim (Bool-cases (k.write_idx + 1 == k.read_idx)) [
  | inl full ↦
      let e = ==→eq (k.write_idx + 1) k.read_idx full in
      let shape = length_wrapped k (omega arith) in
      rw (put_key_full s k e) (
        sym (
          offer_full (capacity k) s (keys k)
            (omega (arith, shape, capacity_moved k (λ z. omega arith)))))
  | inr room ↦
      let ne = ==→ne (k.write_idx + 1) k.read_idx room in
      rw (put_key_store s k ne) (elim (Bool-cases (ltb k.write_idx k.read_idx)) [
        | inl wrapped ↦ put_wrapped s k (ltb→lt k.write_idx k.read_idx wrapped) ne read
        | inr straight ↦ put_straight s k (ltb→le k.write_idx k.read_idx straight) write
      ])
]

pub put_key-IsRing :
    (s : ℕ) (k : Keyboard)
    → k.read_idx ≤ 10
    → k.write_idx < 10
    → (k.write_idx ≡ 0 → k.read_idx ≢ 1)
    → IsRing (put_key s k)
put_key-IsRing s k read write apart = elim (Bool-cases (k.write_idx + 1 == k.read_idx)) [
  | inl full ↦
      let e = ==→eq (k.write_idx + 1) k.read_idx full in
      rw (put_key_full s k e) (record {
        read_le = read;
        write_le = omega arith;
        fresh = λ z. absurd (apart z (omega (arith, z, e)));
      })
  | inr room ↦
      rw (put_key_store s k (==→ne (k.write_idx + 1) k.read_idx room))
        (record { read_le = read; write_le = omega arith; fresh = λ z. absurd (omega (arith, z)) })
]

pub rewind_end : rewind 10 ≡ 0
unfolding rewind
rewind_end = refl

pub rewind_below : (i : ℕ) → i < 10 → rewind i ≡ i
unfolding rewind
rewind_below i lt = ground arith

-- The writer at the end of the buffer goes on at its start, and the keys stay the same.
pub keys-rewind :
    (k : Keyboard)
    → IsRing k
    → ¬ ((k.write_idx ≡ 10) × (k.read_idx ≤ 1))
    → keys (record k { write_idx = rewind k.write_idx }) ≡ keys k
unfolding keys segment
keys-rewind k ring free = elim (Bool-cases (k.write_idx == 10)) [
  | inl at_end ↦
      let e = ==→eq k.write_idx 10 at_end in
      let moved : 1 < k.read_idx = ground (arith, e, free) in
      rw (e, rewind_end)
        (keys_wrapped (record k { write_idx = 0 }) (omega (arith, moved))
          ∙ append-nil (segment k.key_buf k.read_idx (10 - k.read_idx))
          ∙ sym (keys_straight (record k { write_idx = 10 }) ring.read_le))
  | inr before ↦
      rw (rewind_below k.write_idx (omega (arith, ring.write_le, ==→ne k.write_idx 10 before))) refl
]
