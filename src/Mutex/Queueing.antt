-- ===== src/Mutex/Queueing.antt =====
-- What mutex_lock and mutex_unlock do to the queues of threads.
use koowaldah.Base.{ℕ, none, some, true, false, List, [], ◌∷◌, ◌++◌, ◌≡◌, ◌≢◌, refl, sym, ne→==}
use mathlib.Core.Path.{subst}
use koowaldah.Klist.Frame.{Apart}
use koowaldah.ThreadQueue.Holds.{Holds}
use koowaldah.Sched.Turn.{Ready, yield_lem}
use koowaldah.Sched.Move.{enqueue_lem, dequeue_lem}
use koowaldah.Mutex.{Mutex, set_lock, set_sched, trylock, sleep, lock_pass, unlock}

-- A free mutex is acquired at once.
pub lock_pass-free : (m : Mutex) → m.lock ≢ 0 → lock_pass m ≡ some (true, set_lock 0 m)
unfolding lock_pass trylock
lock_pass-free m free = rw (ne→== m.lock 0 free) refl

-- With the run queue and the sleepers in order and apart, and another thread in the run queue, the
-- current thread goes at a taken mutex to the end of the sleepers, and the first thread of the run
-- queue, as sched0_dequeue left it, runs.
pub lock_pass-taken :
    (x y : ℕ) (xs ys rest us zs : List ℕ) (m : Mutex)
    → m.lock ≡ 0
    → Ready (xs ++ m.sched.current ∷ ys) m.sched
    → xs ++ ys ≡ x ∷ rest
    → rest ++ x ∷ [] ≡ y ∷ us
    → Holds m.sleepers 0 zs m.sched.queues
    → Apart (m.sched.rq ∷ xs ++ m.sched.current ∷ ys) (m.sleepers ∷ zs)
    → (m' : Mutex) × (lock_pass m ≡ some (false, m'))
      × (m'.sched.current ≡ y)
      × Ready (us ++ y ∷ []) m'.sched
      × Holds m.sleepers 0 (zs ++ m.sched.current ∷ []) m'.sched.queues
unfolding lock_pass trylock sleep
lock_pass-taken x y xs ys rest us zs m taken ready others turn waiting p =
    let (s1, run1, ready1, asleep, _, same, apart) =
      dequeue_lem m.sleepers x xs ys rest zs m.sched ready others waiting p in
    let first = subst (λ ts. Ready ts s1) turn ready1 in
    let (s2, run2, chosen, ready2, _, _, keeps) = yield_lem y us s1 first in
    let apart1 =
      subst (λ q. Apart (q ∷ rest ++ x ∷ []) (m.sleepers ∷ zs ++ m.sched.current ∷ [])) (sym same)
        apart in
    let apart2 =
      subst (λ ts. Apart (s1.rq ∷ ts) (m.sleepers ∷ zs ++ m.sched.current ∷ [])) turn apart1 in
    (
      set_sched s2 (set_lock 0 m),
      rw (taken, run1, run2) refl,
      chosen,
      ready2,
      keeps.queues m.sleepers 0 (zs ++ m.sched.current ∷ []) apart2 asleep,
    )

-- With the run queue and the sleepers in order and apart, mutex_unlock of a taken mutex frees it,
-- and wakes the first sleeper: it becomes the first thread of the run queue.
pub unlock_lem :
    (x : ℕ) (xs ys : List ℕ) (m : Mutex)
    → m.lock ≡ 0
    → Holds m.sleepers 0 (x ∷ xs) m.sched.queues
    → Ready ys m.sched
    → Apart (m.sleepers ∷ x ∷ xs) (m.sched.rq ∷ ys)
    → (m' : Mutex) × (unlock m ≡ some m')
      × (m'.lock ≡ 1)
      × Holds m.sleepers 0 xs m'.sched.queues
      × Ready (x ∷ ys) m'.sched
unfolding unlock trylock
unlock_lem x xs ys m taken waiting ready p =
    let (s', run, left, ready', _, _) = enqueue_lem m.sleepers x xs ys m.sched waiting ready p in
    (set_sched s' (set_lock 1 m), rw (taken, run) refl, refl, left, ready')

-- To unlock a mutex that is free is a bug.
pub unlock-free : (m : Mutex) → m.lock ≢ 0 → unlock m ≡ none
unfolding unlock trylock
unlock-free m free = rw (ne→== m.lock 0 free) refl
