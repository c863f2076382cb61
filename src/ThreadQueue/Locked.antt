-- ===== src/ThreadQueue/Locked.antt =====
-- The functions of kernel/thread_queue.c that insert and remove one thread under the queue's lock.
use koowaldah.Base.{ℕ, none, some, List, [], ◌∷◌, ◌++◌, ◌≡◌, refl, append-nil}
use mathlib.Core.Path.{subst}
use koowaldah.Klist.Ring.{NotIn, Chain-split}
use koowaldah.Klist.Laws.{is_empty_lem}
use koowaldah.ThreadQueue.{
  Queues, set_counter, insert_head, insert_tail, remove_head, remove_tail, remove_head_held,
  remove_tail_held,
}
use koowaldah.ThreadQueue.Holds.{
  Holds, Idle, Keeps, Keeps-refl, Keeps-locked, Holds-set_counter, Keeps-set_counter,
}
use koowaldah.ThreadQueue.Basic.{
  spin_lock_lem, spin_unlock_lem, linked_head, insert_head_held_lem, linked_head-Holds,
  linked_head-Keeps, linked_tail, insert_tail_held_lem, linked_tail-Holds, linked_tail-Keeps,
  is_nil-cons, unlinked, remove_thread_held_lem, unlinked-Holds, unlinked-Keeps,
}

-- tq_insert_head puts an idle thread at the head of the queue, releases the lock, and changes no other
-- queue and no other idle thread.
pub insert_head_lem :
    (t q : ℕ) (ts : List ℕ) (s : Queues)
    → Holds q 0 ts s
    → Idle t s
    → NotIn t (q ∷ ts)
    → (s' : Queues) × (insert_head t q s ≡ some s')
      × Holds q 0 (t ∷ ts) s'
      × Keeps (t ∷ q ∷ ts) s s'
unfolding insert_head
insert_head_lem t q ts s holds idle out =
    let s1 = set_counter q 1 s in
    let held = Holds-set_counter q 0 1 ts s holds in
    let s2 = linked_head t q s1 in
    let linked = linked_head-Holds t q ts s1 held out in
    (
      set_counter q 0 s2,
      rw
          (
            spin_lock_lem q ts s holds,
            insert_head_held_lem t q ts s1 held
                (record { alone = idle.alone; unowned = idle.unowned }),
            spin_unlock_lem q (t ∷ ts) s2 linked,
          )
          refl,
      Holds-set_counter q 1 0 (t ∷ ts) s2 linked,
      Keeps-locked q (t ∷ q ∷ ts) s s1 s2 _ (λ zs p. p.1.0) (Keeps-set_counter q 1 s)
          (linked_head-Keeps t q ts s1 held out.0) (Keeps-set_counter q 0 s2),
    )

-- On a queue in order and unlocked, tq_insert_tail puts an idle thread at the tail, releases the
-- lock, and changes no other queue and no other idle thread.
pub insert_tail_lem :
    (t q : ℕ) (ts : List ℕ) (s : Queues)
    → Holds q 0 ts s
    → Idle t s
    → NotIn t (q ∷ ts)
    → (s' : Queues) × (insert_tail t q s ≡ some s')
      × Holds q 0 (ts ++ t ∷ []) s'
      × Keeps (t ∷ q ∷ ts) s s'
unfolding insert_tail
insert_tail_lem t q ts s holds idle out =
    let s1 = set_counter q 1 s in
    let held = Holds-set_counter q 0 1 ts s holds in
    let s2 = linked_tail t q s1 in
    let linked = linked_tail-Holds t q ts s1 held out in
    (
      set_counter q 0 s2,
      rw
          (
            spin_lock_lem q ts s holds,
            insert_tail_held_lem t q ts s1 held
                (record { alone = idle.alone; unowned = idle.unowned }),
            spin_unlock_lem q (ts ++ t ∷ []) s2 linked,
          )
          refl,
      Holds-set_counter q 1 0 (ts ++ t ∷ []) s2 linked,
      Keeps-locked q (t ∷ q ∷ ts) s s1 s2 _ (λ zs p. p.1.0) (Keeps-set_counter q 1 s)
          (linked_tail-Keeps t q ts s1 held out.0) (Keeps-set_counter q 0 s2),
    )

-- tq_remove_head takes the first thread off the queue, leaves it idle, releases the lock, and changes
-- no other queue and no idle thread.
pub remove_head_lem :
    (q t : ℕ) (ts : List ℕ) (s : Queues)
    → Holds q 0 (t ∷ ts) s
    → (s' : Queues) × (remove_head q s ≡ some (some t, s'))
      × Holds q 0 ts s'
      × Idle t s'
      × Keeps (q ∷ t ∷ ts) s s'
unfolding remove_head remove_head_held
remove_head_lem q t ts s holds =
    let s1 = set_counter q 1 s in
    let held = Holds-set_counter q 0 1 (t ∷ ts) s holds in
    let s2 = unlinked t s1 in
    let (left, idle) = unlinked-Holds t q [] ts s1 held in
    let full = is_empty_lem s.links q (t ∷ ts) holds.ring in
    (
      set_counter q 0 s2,
      rw
          (
            spin_lock_lem q (t ∷ ts) s holds,
            full,
            holds.ring.0.0,
            remove_thread_held_lem t q [] ts s1 held,
            spin_unlock_lem q ts s2 left,
          )
          refl,
      Holds-set_counter q 1 0 ts s2 left,
      record { alone = idle.alone; unowned = idle.unowned },
      Keeps-locked q (q ∷ t ∷ ts) s s1 s2 _ (λ zs p. p.0) (Keeps-set_counter q 1 s)
          (unlinked-Keeps t q [] ts s1 held) (Keeps-set_counter q 0 s2),
    )

-- On an empty queue tq_remove_head gives NULL and releases the lock.
pub remove_head-nil :
    (q : ℕ) (s : Queues)
    → Holds q 0 [] s
    → (s' : Queues) × (remove_head q s ≡ some (none, s')) × Holds q 0 [] s' × Keeps (q ∷ []) s s'
unfolding remove_head remove_head_held
remove_head-nil q s holds =
    let s1 = set_counter q 1 s in
    let held = Holds-set_counter q 0 1 [] s holds in
    (
      set_counter q 0 s1,
      rw
          (
            spin_lock_lem q [] s holds,
            is_empty_lem s.links q [] holds.ring,
            spin_unlock_lem q [] s1 held,
          )
          refl,
      Holds-set_counter q 1 0 [] s1 held,
      Keeps-locked q (q ∷ []) s s1 s1 _ (λ zs p. p.0) (Keeps-set_counter q 1 s)
          (Keeps-refl (q ∷ []) s1) (Keeps-set_counter q 0 s1),
    )

-- tq_remove_tail takes the last thread off the queue, leaves it idle, releases the lock, and changes
-- no other queue and no idle thread.
pub remove_tail_lem :
    (q t : ℕ) (ts : List ℕ) (s : Queues)
    → Holds q 0 (ts ++ t ∷ []) s
    → (s' : Queues) × (remove_tail q s ≡ some (some t, s'))
      × Holds q 0 ts s'
      × Idle t s'
      × Keeps (q ∷ ts ++ t ∷ []) s s'
unfolding remove_tail remove_tail_held
remove_tail_lem q t ts s holds =
    let s1 = set_counter q 1 s in
    let held = Holds-set_counter q 0 1 (ts ++ t ∷ []) s holds in
    let s2 = unlinked t s1 in
    let (shorter, idle) = unlinked-Holds t q ts [] s1 held in
    let left = subst (λ us. Holds q 1 us s2) (append-nil ts) shorter in
    let last : s.links.prev q ≡ t = (Chain-split s.links q t q ts [] holds.ring.0).1.1 in
    let full = is_empty_lem s.links q (ts ++ t ∷ []) holds.ring in
    (
      set_counter q 0 s2,
      rw
          (
            spin_lock_lem q (ts ++ t ∷ []) s holds,
            full,
            is_nil-cons ts t [],
            last,
            remove_thread_held_lem t q ts [] s1 held,
            spin_unlock_lem q ts s2 left,
          )
          refl,
      Holds-set_counter q 1 0 ts s2 left,
      record { alone = idle.alone; unowned = idle.unowned },
      Keeps-locked q (q ∷ ts ++ t ∷ []) s s1 s2 _ (λ zs p. p.0) (Keeps-set_counter q 1 s)
          (unlinked-Keeps t q ts [] s1 held) (Keeps-set_counter q 0 s2),
    )

-- On an empty queue tq_remove_tail gives NULL and releases the lock.
pub remove_tail-nil :
    (q : ℕ) (s : Queues)
    → Holds q 0 [] s
    → (s' : Queues) × (remove_tail q s ≡ some (none, s')) × Holds q 0 [] s' × Keeps (q ∷ []) s s'
unfolding remove_tail remove_tail_held
remove_tail-nil q s holds =
    let s1 = set_counter q 1 s in
    let held = Holds-set_counter q 0 1 [] s holds in
    (
      set_counter q 0 s1,
      rw
          (
            spin_lock_lem q [] s holds,
            is_empty_lem s.links q [] holds.ring,
            spin_unlock_lem q [] s1 held,
          )
          refl,
      Holds-set_counter q 1 0 [] s1 held,
      Keeps-locked q (q ∷ []) s s1 s1 _ (λ zs p. p.0) (Keeps-set_counter q 1 s)
          (Keeps-refl (q ∷ []) s1) (Keeps-set_counter q 0 s1),
    )
