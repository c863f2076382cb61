-- ===== src/Sched/Move.antt =====
-- How threads come to the run queue and leave it: sched0_enqueue and sched0_dequeue of
-- kernel/sched0.c.
use koowaldah.Base.{ℕ, none, some, true, false, List, [], ◌∷◌, ◌++◌, ◌≡◌, arith, refl, sym, ==_self}
use mathlib.Core.Path.{subst}
use koowaldah.Klist.Ring.{NotIn, NotIn-swap, Distinct-delete}
use koowaldah.Klist.Frame.{Apart, Apart-sym, Apart-append_left, Apart-append_right, Apart-append}
use koowaldah.ThreadQueue.{Queues, set_counter}
use koowaldah.ThreadQueue.Holds.{
  Holds, Idle, Keeps, Holds-set_counter, Keeps-set_counter, OwnedBy-append_left,
}
use koowaldah.ThreadQueue.Basic.{
  spin_lock_lem, spin_unlock_lem, unlinked, remove_thread_held_lem, unlinked-Holds, unlinked-Keeps,
}
use koowaldah.ThreadQueue.Locked.{
  insert_head_lem, insert_tail_lem, remove_head_lem, remove_head-nil,
}
use koowaldah.Sched.{
  Sched, max_quantum, wake, enqueue, dequeue, set_queues, set_quantum, set_last_tick,
}
use koowaldah.Sched.Rotate.{rotate_held_lem, rotate_held-nil}
use koowaldah.Sched.Turn.{Ready}

-- With the run queue and another queue, which is not empty, in order, unlocked and without common
-- nodes, sched0_enqueue takes the first thread of the other queue, gives it a full quantum, and
-- puts it first on the run queue.
pub enqueue_lem :
    (f x : ℕ) (xs ys : List ℕ) (s : Sched)
    → Holds f 0 (x ∷ xs) s.queues
    → Ready ys s
    → Apart (f ∷ x ∷ xs) (s.rq ∷ ys)
    → (s' : Sched) × (enqueue f s ≡ some (true, s'))
      × Holds f 0 xs s'.queues
      × Ready (x ∷ ys) s'
      × (s'.quantum x ≡ max_quantum)
      × (s'.rq ≡ s.rq)
unfolding enqueue
enqueue_lem f x xs ys s from ready p =
    let (q1, run1, left, idle, keeps1) = remove_head_lem f x xs s.queues from in
    let to = keeps1.queues s.rq 0 ys p ready in
    let (q2, run2, filled, keeps2) = insert_head_lem x s.rq ys q1 to idle p.1.0 in
    let apart : Apart (x ∷ s.rq ∷ ys) (f ∷ xs) = (
      ((λ e. from.ring.1.0.0 (sym e)), from.ring.1.1.0),
      Apart-sym (f ∷ xs) (s.rq ∷ ys) (p.0, p.1.1),
    ) in
    (
      set_queues q2 (set_quantum x max_quantum s),
      rw (run1, run2, wake) refl,
      keeps2.queues f 0 xs apart left,
      filled,
      ground arith,
      refl,
    )

-- From an empty queue sched0_enqueue takes nothing, and says so.
pub enqueue-nil :
    (f : ℕ) (ys : List ℕ) (s : Sched)
    → Holds f 0 [] s.queues
    → Ready ys s
    → Apart (f ∷ []) (s.rq ∷ ys)
    → (s' : Sched) × (enqueue f s ≡ some (false, s')) × Holds f 0 [] s'.queues × Ready ys s'
unfolding enqueue
enqueue-nil f ys s from ready p =
    let (q1, run, left, keeps) = remove_head-nil f s.queues from in
    (set_queues q1 s, rw run refl, left, keeps.queues s.rq 0 ys p ready)

-- The queues once the current thread is off the run queue, whose lock is held.
abbrev released : Sched → Queues
released s = unlinked s.current (set_counter s.rq 1 s.queues)

released-Holds :
    (xs ys : List ℕ) (s : Sched)
    → Ready (xs ++ s.current ∷ ys) s
    → Holds s.rq 1 (xs ++ ys) (released s)
      × Idle s.current (released s)
      × Keeps (s.rq ∷ xs ++ s.current ∷ ys) s.queues (released s)
released-Holds xs ys s ready =
    let s1 = set_counter s.rq 1 s.queues in
    let held = Holds-set_counter s.rq 0 1 (xs ++ s.current ∷ ys) s.queues ready in
    let (rest, idle) = unlinked-Holds s.current s.rq xs ys s1 held in
    let k1 = Keeps-set_counter s.rq 1 s.queues in
    let k2 = unlinked-Keeps s.current s.rq xs ys s1 held in
    (
      rest,
      idle,
      record {
        queues = λ r m us p other. k2.queues r m us p (k1.queues r m us (p.0, tt) other);
        threads = λ u p other. k2.threads u p (k1.threads u (p.0, tt) other);
      },
    )

-- What is apart from a list is apart from its rotation without one member.
rotation-Apart :
    (q c x : ℕ) (xs ys rest zs : List ℕ)
    → xs ++ ys ≡ x ∷ rest
    → Apart (q ∷ xs ++ c ∷ ys) zs
    → Apart (q ∷ x ∷ rest) zs × Apart (q ∷ rest ++ x ∷ []) zs
rotation-Apart q c x xs ys rest zs e p =
    let front = Apart-append_left xs (c ∷ ys) zs p.1 in
    let back = Apart-append_right xs (c ∷ ys) zs p.1 in
    let both = subst (λ us. Apart us zs) e (Apart-append xs ys zs front back.1) in
    ((p.0, both), (p.0, Apart-append rest (x ∷ []) zs both.1 (both.0, tt)))

-- With the run queue and another queue in order, unlocked and without common nodes, and a thread
-- besides the current one in the run queue, sched0_dequeue takes the current thread off the run
-- queue, wherever it stands there, gives it a full quantum and puts it last on the other queue;
-- the first of the other threads of the run queue becomes its last. The two queues still have no
-- common nodes.
pub dequeue_lem :
    (t x : ℕ) (xs ys rest zs : List ℕ) (s : Sched)
    → Ready (xs ++ s.current ∷ ys) s
    → xs ++ ys ≡ x ∷ rest
    → Holds t 0 zs s.queues
    → Apart (s.rq ∷ xs ++ s.current ∷ ys) (t ∷ zs)
    → (s' : Sched) × (dequeue t s ≡ some s')
      × Ready (rest ++ x ∷ []) s'
      × Holds t 0 (zs ++ s.current ∷ []) s'.queues
      × (s'.quantum s.current ≡ max_quantum)
      × (s'.rq ≡ s.rq)
      × Apart (s.rq ∷ rest ++ x ∷ []) (t ∷ zs ++ s.current ∷ [])
unfolding dequeue
dequeue_lem t x xs ys rest zs s ready others to p =
    let held = Holds-set_counter s.rq 0 1 (xs ++ s.current ∷ ys) s.queues ready in
    let owned = (OwnedBy-append_left _ s.queues.krunq_head xs (s.current ∷ ys) ready.owned).1.0 in
    let (shorter, idle, keeps1) = released-Holds xs ys s ready in
    let left = subst (λ us. Holds s.rq 1 us (released s)) others shorter in
    let (s3, run3, turned, keeps3) = rotate_held_lem s.rq x rest (released s) left in
    let keeps4 = Keeps-set_counter s.rq 0 s3 in
    let s4 = set_counter s.rq 0 s3 in
    let (apart, apart') = rotation-Apart s.rq s.current x xs ys rest (t ∷ zs) others p in
    let gone = (Distinct-delete s.current (s.rq ∷ xs) ys ready.ring.1).1 in
    let gone' : NotIn s.current (x ∷ rest) = subst (NotIn s.current) others gone.1 in
    let idle3 =
      keeps3.threads s.current (Apart-sym (s.current ∷ []) (s.rq ∷ x ∷ rest) ((gone.0, gone'), tt))
        idle in
    let idle4 = keeps4.threads s.current (((λ e. gone.0 (sym e)), tt), tt) idle3 in
    let to4 =
      keeps4.queues t 0 zs (p.0, tt) (keeps3.queues t 0 zs apart (keeps1.queues t 0 zs p to)) in
    let out = (Apart-append_right xs (s.current ∷ ys) (t ∷ zs) p.1).0 in
    let (s5, run5, filled, keeps5) = insert_tail_lem s.current t zs s4 to4 idle4 out in
    let away : Apart (s.current ∷ t ∷ zs) (s.rq ∷ rest ++ x ∷ []) = (
      (gone.0, NotIn-swap s.current (x ∷ []) rest gone'),
      Apart-sym (s.rq ∷ rest ++ x ∷ []) (t ∷ zs) apart',
    ) in
    let ready4 = Holds-set_counter s.rq 1 0 (rest ++ x ∷ []) s3 turned in
    (
      set_queues s5 (set_last_tick s.current s.jiffies (set_quantum s.current max_quantum s)),
      rw
          (
            owned,
            ==_self s.rq,
            spin_lock_lem s.rq (xs ++ s.current ∷ ys) s.queues ready,
            remove_thread_held_lem s.current s.rq xs ys (set_counter s.rq 1 s.queues) held,
            run3,
            spin_unlock_lem s.rq (rest ++ x ∷ []) s3 turned,
            run5,
          )
          refl,
      keeps5.queues s.rq 0 (rest ++ x ∷ []) away ready4,
      filled,
      ground arith,
      refl,
      Apart-sym (t ∷ zs ++ s.current ∷ []) (s.rq ∷ rest ++ x ∷ [])
          (away.1.0, Apart-append zs (s.current ∷ []) _ away.1.1 (away.0, tt)),
    )

-- If the current thread is the only one of the run queue, it cannot leave it: the `bug_on` of
-- sched0_dequeue fires.
pub dequeue-alone : (t : ℕ) (s : Sched) → Ready (s.current ∷ []) s → dequeue t s ≡ none
unfolding dequeue
dequeue-alone t s ready =
    let held = Holds-set_counter s.rq 0 1 (s.current ∷ []) s.queues ready in
    let (none_left, idle, keeps) = released-Holds [] [] s ready in
    rw
      (
        ready.owned.0,
        ==_self s.rq,
        spin_lock_lem s.rq (s.current ∷ []) s.queues ready,
        remove_thread_held_lem s.current s.rq [] [] (set_counter s.rq 1 s.queues) held,
        rotate_held-nil s.rq (released s) none_left,
      )
      refl
