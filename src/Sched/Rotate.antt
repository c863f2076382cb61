-- ===== src/Sched/Rotate.antt =====
-- The move of the run queue's first thread to its end, in kernel/sched0.c.
use koowaldah.Base.{ℕ, none, some, List, [], ◌∷◌, ◌++◌, ◌≡◌, refl, sym}
use koowaldah.Klist.Ring.{NotIn}
use koowaldah.Klist.Laws.{is_empty_lem}
use koowaldah.ThreadQueue.{Queues, set_counter, remove_head_held}
use koowaldah.ThreadQueue.Holds.{Holds, Keeps, Keeps-locked, Holds-set_counter, Keeps-set_counter}
use koowaldah.ThreadQueue.Basic.{
  spin_lock_lem, spin_unlock_lem, linked_tail, insert_tail_held_lem, linked_tail-Holds,
  linked_tail-Keeps, unlinked, remove_thread_held_lem, unlinked-Holds, unlinked-Keeps,
}
use koowaldah.Sched.{rotate_held, rotate}

pub rotate_held_lem :
    (q x : ℕ) (xs : List ℕ) (s : Queues)
    → Holds q 1 (x ∷ xs) s
    → (s' : Queues) × (rotate_held q s ≡ some (x, s'))
      × Holds q 1 (xs ++ x ∷ []) s'
      × Keeps (q ∷ x ∷ xs) s s'
unfolding rotate_held remove_head_held
rotate_held_lem q x xs s holds =
    let s1 = unlinked x s in
    let (rest, idle) = unlinked-Holds x q [] xs s holds in
    let out : NotIn x (q ∷ xs) = ((λ e. holds.ring.1.0.0 (sym e)), holds.ring.1.1.0) in
    let k1 = unlinked-Keeps x q [] xs s holds in
    let k2 = linked_tail-Keeps x q xs s1 rest out.0 in
    (
      linked_tail x q s1,
      rw
          (
            is_empty_lem s.links q (x ∷ xs) holds.ring,
            holds.ring.0.0,
            remove_thread_held_lem x q [] xs s holds,
            insert_tail_held_lem x q xs s1 rest idle,
          )
          refl,
      linked_tail-Holds x q xs s1 rest out,
      record {
        queues =
            λ r m us p other. k2.queues r m us (p.1.0, (p.0, p.1.1)) (k1.queues r m us p other);
        threads = λ u p other. k2.threads u (p.1.0, (p.0, p.1.1)) (k1.threads u p other);
      },
    )

-- The run queue's first thread becomes its last; the lock is released, and all else is kept.
pub rotate_lem :
    (q x : ℕ) (xs : List ℕ) (s : Queues)
    → Holds q 0 (x ∷ xs) s
    → (s' : Queues) × (rotate q s ≡ some (x, s'))
      × Holds q 0 (xs ++ x ∷ []) s'
      × Keeps (q ∷ x ∷ xs) s s'
unfolding rotate
rotate_lem q x xs s holds =
    let s1 = set_counter q 1 s in
    let held = Holds-set_counter q 0 1 (x ∷ xs) s holds in
    let (s2, run, turned, keeps) = rotate_held_lem q x xs s1 held in
    (
      set_counter q 0 s2,
      rw (spin_lock_lem q (x ∷ xs) s holds, run, spin_unlock_lem q (xs ++ x ∷ []) s2 turned) refl,
      Holds-set_counter q 1 0 (xs ++ x ∷ []) s2 turned,
      Keeps-locked q (q ∷ x ∷ xs) s s1 s2 _ (λ zs p. p.0) (Keeps-set_counter q 1 s) keeps
          (Keeps-set_counter q 0 s2),
    )

-- With the queue empty there is no thread to run, and the `bug_on` fires.
pub rotate_held-nil : (q : ℕ) (s : Queues) → Holds q 1 [] s → rotate_held q s ≡ none
unfolding rotate_held remove_head_held
rotate_held-nil q s holds = rw (is_empty_lem s.links q [] holds.ring) refl
