-- ===== src/ThreadQueue/Transfer.antt =====
-- The transfers of kernel/thread_queue.c: one thread from an end of a queue to an end of another.
use koowaldah.Base.{ℕ, some, true, false, List, [], ◌∷◌, ◌++◌, ◌≡◌, refl, sym}
use koowaldah.Klist.Ring.{NotIn, Distinct-swap}
use koowaldah.Klist.Frame.{Apart, Apart-sym, Apart-append_left, Apart-append_right}
use koowaldah.ThreadQueue.{
  Queues, give_head, give_tail, transfer_head_to_head, transfer_head_to_tail, transfer_tail_to_head,
  transfer_tail_to_tail,
}
use koowaldah.ThreadQueue.Holds.{Holds, Idle, Keeps, Keeps-trans}
use koowaldah.ThreadQueue.Locked.{
  insert_head_lem, insert_tail_lem, remove_head_lem, remove_tail_lem, remove_head-nil,
}

module _ (f t x : ℕ) (xs ys : List ℕ) (s : Queues) where
  give_head_lem :
      Holds f 0 xs s
      → Idle x s
      → Holds t 0 ys s
      → NotIn x (t ∷ ys)
      → Apart (x ∷ t ∷ ys) (f ∷ xs)
      → (s' : Queues) × (give_head (some x) t s ≡ some (true, s'))
        × Holds f 0 xs s'
        × Holds t 0 (x ∷ ys) s'
        × Keeps (x ∷ t ∷ ys) s s'
  give_head_lem from idle to out p =
      let (s', run, filled, keeps) = insert_head_lem x t ys s to idle out in
      (s', rw run refl, keeps.queues f 0 xs p from, filled, keeps)

  give_tail_lem :
      Holds f 0 xs s
      → Idle x s
      → Holds t 0 ys s
      → NotIn x (t ∷ ys)
      → Apart (x ∷ t ∷ ys) (f ∷ xs)
      → (s' : Queues) × (give_tail (some x) t s ≡ some (true, s'))
        × Holds f 0 xs s'
        × Holds t 0 (ys ++ x ∷ []) s'
        × Keeps (x ∷ t ∷ ys) s s'
  give_tail_lem from idle to out p =
      let (s', run, filled, keeps) = insert_tail_lem x t ys s to idle out in
      (s', rw run refl, keeps.queues f 0 xs p from, filled, keeps)

module _ (f t x : ℕ) (xs ys : List ℕ) (s : Queues) where
  -- tq_transfer_head_to_head moves the thread at the head of one queue to the head of another, reports
  -- success, releases both locks, and leaves all other queues and idle threads as they were.
  pub transfer_head_to_head_lem :
      Holds f 0 (x ∷ xs) s
      → Holds t 0 ys s
      → Apart (f ∷ x ∷ xs) (t ∷ ys)
      → (s' : Queues) × (transfer_head_to_head f t s ≡ some (true, s'))
        × Holds f 0 xs s'
        × Holds t 0 (x ∷ ys) s'
        × Keeps ((f ∷ x ∷ xs) ++ x ∷ t ∷ ys) s s'
  unfolding transfer_head_to_head
  transfer_head_to_head_lem from to p =
      let (s1, run1, left, idle, keeps1) = remove_head_lem f x xs s from in
      let (s', run2, left', filled, keeps2) =
        give_head_lem f t x xs ys s1 left idle (keeps1.queues t 0 ys p to) p.1.0 (
          ((λ e. from.ring.1.0.0 (sym e)), from.ring.1.1.0),
          Apart-sym (f ∷ xs) (t ∷ ys) (p.0, p.1.1),
        ) in
      (
        s',
        rw (run1, run2, give_head) refl,
        left',
        filled,
        Keeps-trans (f ∷ x ∷ xs) (x ∷ t ∷ ys) s s1 s' keeps1 keeps2,
      )

  -- With two queues in order, unlocked and without common nodes, the first of them not empty,
  -- tq_transfer_head_to_tail moves the thread at the head of the first to the tail of the second,
  -- reports success, releases both locks, and leaves all other queues and idle threads as they
  -- were.
  pub transfer_head_to_tail_lem :
      Holds f 0 (x ∷ xs) s
      → Holds t 0 ys s
      → Apart (f ∷ x ∷ xs) (t ∷ ys)
      → (s' : Queues) × (transfer_head_to_tail f t s ≡ some (true, s'))
        × Holds f 0 xs s'
        × Holds t 0 (ys ++ x ∷ []) s'
        × Keeps ((f ∷ x ∷ xs) ++ x ∷ t ∷ ys) s s'
  unfolding transfer_head_to_tail
  transfer_head_to_tail_lem from to p =
      let (s1, run1, left, idle, keeps1) = remove_head_lem f x xs s from in
      let (s', run2, left', filled, keeps2) =
        give_tail_lem f t x xs ys s1 left idle (keeps1.queues t 0 ys p to) p.1.0 (
          ((λ e. from.ring.1.0.0 (sym e)), from.ring.1.1.0),
          Apart-sym (f ∷ xs) (t ∷ ys) (p.0, p.1.1),
        ) in
      (
        s',
        rw (run1, run2, give_tail) refl,
        left',
        filled,
        Keeps-trans (f ∷ x ∷ xs) (x ∷ t ∷ ys) s s1 s' keeps1 keeps2,
      )

  -- With two queues in order, unlocked and without common nodes, the first of them not empty,
  -- tq_transfer_tail_to_head moves the thread at the tail of the first to the head of the second,
  -- reports success, releases both locks, and leaves all other queues and idle threads as they
  -- were.
  pub transfer_tail_to_head_lem :
      Holds f 0 (xs ++ x ∷ []) s
      → Holds t 0 ys s
      → Apart (f ∷ xs ++ x ∷ []) (t ∷ ys)
      → (s' : Queues) × (transfer_tail_to_head f t s ≡ some (true, s'))
        × Holds f 0 xs s'
        × Holds t 0 (x ∷ ys) s'
        × Keeps ((f ∷ xs ++ x ∷ []) ++ x ∷ t ∷ ys) s s'
  unfolding transfer_tail_to_head
  transfer_tail_to_head_lem from to p =
      let others = Apart-append_left xs (x ∷ []) (t ∷ ys) p.1 in
      let at_x = (Apart-append_right xs (x ∷ []) (t ∷ ys) p.1).0 in
      let distinct = Distinct-swap (f ∷ xs) (x ∷ []) from.ring.1 in
      let (s1, run1, left, idle, keeps1) = remove_tail_lem f x xs s from in
      let (s', run2, left', filled, keeps2) =
        give_head_lem f t x xs ys s1 left idle (keeps1.queues t 0 ys p to) at_x
          (distinct.0, Apart-sym (f ∷ xs) (t ∷ ys) (p.0, others)) in
      (
        s',
        rw (run1, run2, give_head) refl,
        left',
        filled,
        Keeps-trans (f ∷ xs ++ x ∷ []) (x ∷ t ∷ ys) s s1 s' keeps1 keeps2,
      )

  -- tq_transfer_tail_to_tail moves the thread at the tail of one queue to the tail of another, reports
  -- success, releases both locks, and leaves all other queues and idle threads as they were.
  pub transfer_tail_to_tail_lem :
      Holds f 0 (xs ++ x ∷ []) s
      → Holds t 0 ys s
      → Apart (f ∷ xs ++ x ∷ []) (t ∷ ys)
      → (s' : Queues) × (transfer_tail_to_tail f t s ≡ some (true, s'))
        × Holds f 0 xs s'
        × Holds t 0 (ys ++ x ∷ []) s'
        × Keeps ((f ∷ xs ++ x ∷ []) ++ x ∷ t ∷ ys) s s'
  unfolding transfer_tail_to_tail
  transfer_tail_to_tail_lem from to p =
      let others = Apart-append_left xs (x ∷ []) (t ∷ ys) p.1 in
      let at_x = (Apart-append_right xs (x ∷ []) (t ∷ ys) p.1).0 in
      let distinct = Distinct-swap (f ∷ xs) (x ∷ []) from.ring.1 in
      let (s1, run1, left, idle, keeps1) = remove_tail_lem f x xs s from in
      let (s', run2, left', filled, keeps2) =
        give_tail_lem f t x xs ys s1 left idle (keeps1.queues t 0 ys p to) at_x
          (distinct.0, Apart-sym (f ∷ xs) (t ∷ ys) (p.0, others)) in
      (
        s',
        rw (run1, run2, give_tail) refl,
        left',
        filled,
        Keeps-trans (f ∷ xs ++ x ∷ []) (x ∷ t ∷ ys) s s1 s' keeps1 keeps2,
      )

-- A transfer from an empty queue reports failure, and changes no queue.
pub transfer-nil :
    (f t : ℕ) (s : Queues)
    → Holds f 0 [] s
    → (s' : Queues) × (transfer_head_to_tail f t s ≡ some (false, s'))
      × (transfer_head_to_head f t s ≡ some (false, s'))
      × Holds f 0 [] s'
      × Keeps (f ∷ []) s s'
unfolding transfer_head_to_head transfer_head_to_tail
transfer-nil f t s from =
    let (s', run, left, keeps) = remove_head-nil f s from in
    (s', rw run refl, rw run refl, left, keeps)
