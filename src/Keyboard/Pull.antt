-- ===== src/Keyboard/Pull.antt =====
-- pckbd_read of drivers/keyboard/pc-kbd.c as the departure of the first key of the queue.
use mathlib.Core.Path.{subst}
use koowaldah.Base.{
  ℕ, zero, suc, ◌+◌, ◌-◌, ◌<◌, ◌≡◌, ◌≢◌, inl, inr, refl, sym, ap, ◌∙◌, arith, List, [], ◌∷◌, ◌++◌,
  Bool-cases, ◌==◌, ==→eq, ==→ne, ==_self, ne→==, ltb, ltb→lt, ltb→le,
}
use koowaldah.Keyboard.{Keyboard, rewind, KeyRead, key, waited, pckbd_read}
use koowaldah.Keyboard.Queue.{segment, keys, IsRing}
use koowaldah.Keyboard.Push.{keys_straight, keys_wrapped, rewind_end, rewind_below}

-- What a reader gets from a queue: the first key's entry of the table, or a wait if there is no key.
abbrev pub Departs : (ℕ → ℕ) → Keyboard → List ℕ → Keyboard × KeyRead → Type 0
Departs table k [] r = r ≡ (k, waited)
Departs table k (c ∷ q) r = IsRing r.0 × (keys r.0 ≡ q) × (r.1 ≡ key (table c))

segment_first :
    (buf : ℕ → ℕ) (a n : ℕ) → 0 < n → segment buf a n ≡ buf a ∷ segment buf (a + 1) (n - 1)
unfolding segment
segment_first buf a zero pos = absurd (omega arith)
segment_first buf a (suc n) pos =
    let e : a + 1 ≡ suc a = omega arith in let e1 : suc n - 1 ≡ n = omega arith in rw (e, e1) refl

pckbd_read_empty :
    (table : ℕ → ℕ) (k : Keyboard) → k.read_idx ≡ k.write_idx → pckbd_read table k ≡ (k, waited)
unfolding pckbd_read
pckbd_read_empty table k e = rw (e, ==_self k.write_idx) (ground (arith, e))

abbrev taken : (ℕ → ℕ) → ℕ → Keyboard → Keyboard × KeyRead
taken table i k = (record k { read_idx = i + 1 }, key (table (k.key_buf i)))

pckbd_read_take :
    (table : ℕ → ℕ) (k : Keyboard)
    → k.read_idx ≢ k.write_idx
    → pckbd_read table k ≡ taken table (rewind k.read_idx) k
unfolding pckbd_read
pckbd_read_take table k ne = rw (ne→== k.read_idx k.write_idx ne) refl

keys_empty : (k : Keyboard) → k.read_idx ≡ k.write_idx → keys k ≡ []
unfolding keys segment
keys_empty k e =
    keys_straight k (omega (arith, e))
    ∙ (let z : k.write_idx - k.read_idx ≡ 0 = omega (arith, e) in rw z refl)

-- The first key of a queue that is not empty, and the keys behind it.
abbrev FirstAt : ℕ → Keyboard → Type 0
FirstAt i k =
    (i < 10)
    × IsRing (record k { read_idx = i + 1 })
    × (keys k ≡ k.key_buf i ∷ keys (record k { read_idx = i + 1 }))

first_rewound : (k : Keyboard) → IsRing k → k.read_idx ≡ 10 → k.write_idx < 10 → FirstAt 0 k
unfolding segment
first_rewound k ring e lt =
    let pos : 0 < k.write_idx = ground (arith, e, ring.fresh) in
    (
      omega arith,
      record {
        read_le = omega arith;
        write_le = ring.write_le;
        fresh = λ z. absurd (omega (arith, z));
      },
      (keys_wrapped k (omega (arith, e)) ∙ rw e (segment_first k.key_buf 0 k.write_idx pos))
          ∙ ap (λ q. k.key_buf 0 ∷ q)
              (sym (keys_straight (record k { read_idx = 1 }) (omega arith))),
    )

first_wrapped :
    (k : Keyboard) → IsRing k → k.read_idx < 10 → k.write_idx < k.read_idx → FirstAt k.read_idx k
first_wrapped k ring below lt =
    let e : 10 - (k.read_idx + 1) ≡ 10 - k.read_idx - 1 = omega arith in
    let front = segment k.key_buf 0 k.write_idx in
    let next : Keyboard = record k { read_idx = k.read_idx + 1 } in
    let after : keys next ≡ segment k.key_buf (k.read_idx + 1) (10 - k.read_idx - 1) ++ front =
      keys_wrapped next (omega arith) ∙ ap (λ n. segment k.key_buf (k.read_idx + 1) n ++ front) e in
    (
      below,
      record {
        read_le = omega arith;
        write_le = ring.write_le;
        fresh = λ z. absurd (omega (arith, ring.fresh z, lt));
      },
      keys_wrapped k lt
          ∙ ap (λ q. q ++ front)
              (segment_first k.key_buf k.read_idx (10 - k.read_idx) (omega arith))
          ∙ ap (λ q. k.key_buf k.read_idx ∷ q) (sym after),
    )

first_straight : (k : Keyboard) → IsRing k → k.read_idx < k.write_idx → FirstAt k.read_idx k
first_straight k ring lt =
    let e : k.write_idx - (k.read_idx + 1) ≡ k.write_idx - k.read_idx - 1 = omega arith in
    let write = ring.write_le in
    let next : Keyboard = record k { read_idx = k.read_idx + 1 } in
    let after : keys next ≡ segment k.key_buf (k.read_idx + 1) (k.write_idx - k.read_idx - 1) =
      keys_straight next (omega arith) ∙ ap (segment k.key_buf (k.read_idx + 1)) e in
    (
      omega arith,
      record {
        read_le = omega arith;
        write_le = write;
        fresh = λ z. absurd (omega (arith, z, lt));
      },
      keys_straight k (omega arith)
          ∙ segment_first k.key_buf k.read_idx (k.write_idx - k.read_idx) (omega arith)
          ∙ ap (λ q. k.key_buf k.read_idx ∷ q) (sym after),
    )

first_lem : (k : Keyboard) → IsRing k → k.read_idx ≢ k.write_idx → FirstAt (rewind k.read_idx) k
first_lem k ring ne = elim (Bool-cases (k.read_idx == 10)) [
  | inl at_end ↦
      let e = ==→eq k.read_idx 10 at_end in
      let write = ring.write_le in
      subst (λ i. FirstAt i k) (sym (ap rewind e ∙ rewind_end))
        (first_rewound k ring e (omega (arith, e, ne)))
  | inr before ↦
      let below : k.read_idx < 10 = omega (arith, ring.read_le, ==→ne k.read_idx 10 before) in
      subst (λ i. FirstAt i k) (sym (rewind_below k.read_idx below))
        (elim (Bool-cases (ltb k.write_idx k.read_idx)) [
          | inl wrapped ↦ first_wrapped k ring below (ltb→lt k.write_idx k.read_idx wrapped)
          | inr straight ↦
              first_straight k ring (omega (arith, ne, ltb→le k.write_idx k.read_idx straight))
        ])
]

-- From a ring in order pckbd_read gives the table's entry of the key that waits longest, takes that key
-- and no other from the queue and keeps the ring in order; it waits exactly if no key is there.
pub pckbd_read_lem :
    (table : ℕ → ℕ) (k : Keyboard) → IsRing k → Departs table k (keys k) (pckbd_read table k)
pckbd_read_lem table k ring = elim (Bool-cases (k.read_idx == k.write_idx)) [
  | inl none_left ↦
      let e = ==→eq k.read_idx k.write_idx none_left in
      rw (keys_empty k e, pckbd_read_empty table k e) refl
  | inr some_left ↦
      let ne = ==→ne k.read_idx k.write_idx some_left in
      let (_, kept, first) = first_lem k ring ne in
      rw (first, pckbd_read_take table k ne) (kept, refl, refl)
]
