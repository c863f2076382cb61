-- ===== src/Mutex/Exclusion.antt =====
-- Mutual exclusion: at most one thread is between mutex_lock and mutex_unlock, however the threads
-- take turns.
use koowaldah.Base.{ℕ, suc, ◌+◌, ◌≤◌, some, true, false, ◌≡◌, ◌≢◌, refl, arith}
use koowaldah.Mutex.{Mutex, set_lock, init, trylock, sleep, lock_pass, unlock}

-- One step of any thread. The number counts the threads that hold the mutex: only a holder unlocks.
pub data Step : ℕ → Mutex → ℕ → Mutex → Type 0 where
  acquire : {n : ℕ} {m m' : Mutex} → lock_pass m ≡ some (true, m') → Step n m (suc n) m'
  wait : {n : ℕ} {m m' : Mutex} → lock_pass m ≡ some (false, m') → Step n m n m'
  release : {n : ℕ} {m m' : Mutex} → unlock m ≡ some m' → Step (suc n) m n m'

-- What can be reached from a mutex that mutex_init left.
pub data Reach (start : Mutex) : ℕ → Mutex → Type 0 where
  here : Reach start 0 (init start)
  next : {n k : ℕ} {m m' : Mutex} → Reach start n m → Step n m k m' → Reach start k m'

-- The holders and the lock word make one.
abbrev IsExclusive : ℕ → Mutex → Type 0
IsExclusive n m = n + m.lock ≡ 1

sleep-lock : (m m' : Mutex) → sleep m ≡ some m' → m'.lock ≡ m.lock
unfolding sleep
sleep-lock m m' e = ground arith

lock_pass-acquired : (m m' : Mutex) → lock_pass m ≡ some (true, m') → (m.lock ≢ 0) × (m'.lock ≡ 0)
unfolding lock_pass trylock
lock_pass-acquired m m' e = ground arith

lock_pass-waits : (m m' : Mutex) → lock_pass m ≡ some (false, m') → (m.lock ≡ 0) × (m'.lock ≡ 0)
unfolding lock_pass trylock
lock_pass-waits m m' e = ground (arith, sleep-lock (set_lock 0 m) m')

unlock_freed : (m m' : Mutex) → unlock m ≡ some m' → (m.lock ≡ 0) × (m'.lock ≡ 1)
unfolding unlock trylock
unlock_freed m m' e = ground arith

Step-IsExclusive : {n k : ℕ} {m m' : Mutex} → Step n m k m' → IsExclusive n m → IsExclusive k m'
Step-IsExclusive {n} {k} {m} {m'} (acquire e) one = omega (arith, lock_pass-acquired m m' e)
Step-IsExclusive {n} {k} {m} {m'} (wait e) one = omega (arith, lock_pass-waits m m' e)
Step-IsExclusive {n} {k} {m} {m'} (release e) one = omega (arith, unlock_freed m m' e)

Reach-IsExclusive : (start : Mutex) {n : ℕ} {m : Mutex} → Reach start n m → IsExclusive n m
unfolding init
Reach-IsExclusive start here = refl
Reach-IsExclusive start (next r s) = Step-IsExclusive s (Reach-IsExclusive start r)

-- In every state that is reached from mutex_init, in which only holders unlocked, at most one thread
-- holds the mutex, and the lock word is 1 exactly if none does.
pub exclusion : (start : Mutex) (n : ℕ) (m : Mutex) → Reach start n m → (n ≤ 1) × (m.lock + n ≡ 1)
exclusion start n m r = omega (arith, Reach-IsExclusive start r)
