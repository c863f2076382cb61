-- ===== src/ThreadQueue.antt =====
-- include/thread.h and kernel/thread_queue.c: queues of threads.
-- A thread is named by the address of its `krunq` node, a queue by that of its `threads` node, and
-- `links` holds the pointers of both. The spinlocks are those of include/i386/spinlock.h with
-- OPT_DEBUG_SPINLOCKS: a counter that is checked, on a machine with one processor. Interrupts are
-- off between local_irq_save and local_irq_restore, so a function runs as one step; the two leave no
-- trace in the state.
pub mod Holds
pub mod Basic
pub mod Locked
pub mod Transfer
use koowaldah.Base.{
  ℕ, ◌+◌, ◌-◌, Bool, true, false, not, ◌&&◌, Option, none, some, ◌==◌, if◌then◌else◌, update,
}
use koowaldah.Base.Checked.{◌>>=◌, ◌>>◌, bug_on}
use koowaldah.Klist
use koowaldah.Klist.{Links}

pub record Queues : Type 0 where
  pub links : Links
  pub krunq_head : ℕ → Option ℕ
  pub counter : ℕ → ℕ

abbrev pub set_links : Links → Queues → Queues
set_links h s = record s { links = h }

abbrev pub set_krunq_head : ℕ → Option ℕ → Queues → Queues
set_krunq_head t q s = record s { krunq_head = update s.krunq_head t q }

abbrev pub set_counter : ℕ → ℕ → Queues → Queues
set_counter q n s = record s { counter = update s.counter q n }

unfoldable pub spin_lock : ℕ → Queues → Option Queues
spin_lock q s = do bug_on (not (s.counter q == 0)); some (set_counter q (s.counter q + 1) s)

unfoldable pub spin_unlock : ℕ → Queues → Option Queues
spin_unlock q s = do bug_on (not (s.counter q == 1)); some (set_counter q (s.counter q - 1) s)

unfoldable pub spin_trylock : ℕ → Queues → Option (Bool × Queues)
spin_trylock q s = do
  bug_on (not (s.counter q == 0) && not (s.counter q == 1))
  if not (s.counter q == 0) then some (false, s) else some (true, set_counter q (s.counter q + 1) s)

-- tq_init
unfoldable pub init : ℕ → Queues → Queues
init q s = set_counter q 0 (set_links (Klist.init q s.links) s)

-- tq_is_empty
unfoldable pub is_empty : ℕ → Queues → Bool
is_empty q s = Klist.is_empty q s.links

-- __tq_insert_head and the other functions that begin with `__`: the lock is held.
unfoldable pub insert_head_held : ℕ → ℕ → Queues → Option Queues
insert_head_held t q s = do
  bug_on (not (Klist.is_empty t s.links))
  tried ← spin_trylock q s
  bug_on tried.0
  some (set_krunq_head t (some q) (set_links (Klist.append t q tried.1.links) tried.1))

unfoldable pub insert_tail_held : ℕ → ℕ → Queues → Option Queues
insert_tail_held t q s = do
  bug_on (not (Klist.is_empty t s.links))
  tried ← spin_trylock q s
  bug_on tried.0
  some (set_krunq_head t (some q) (set_links (Klist.prepend t q tried.1.links) tried.1))

abbrev pub is_null : Option ℕ → Bool
is_null none = true
is_null (some q) = false

unfoldable pub remove_thread_held : ℕ → Queues → Option Queues
remove_thread_held t s = do
  bug_on (is_null (s.krunq_head t))
  bug_on (Klist.is_empty t s.links)
  some (set_krunq_head t none (set_links (Klist.unlink t s.links) s))

unfoldable pub remove_head_held : ℕ → Queues → Option (Option ℕ × Queues)
remove_head_held q s =
    let t = s.links.next q in
    if not (Klist.is_empty q s.links)
    then (do s' ← remove_thread_held t s; some (some t, s'))
    else some (none, s)

unfoldable pub remove_tail_held : ℕ → Queues → Option (Option ℕ × Queues)
remove_tail_held q s =
    let t = s.links.prev q in
    if not (Klist.is_empty q s.links)
    then (do s' ← remove_thread_held t s; some (some t, s'))
    else some (none, s)

-- tq_insert_head, tq_insert_tail
unfoldable pub insert_head : ℕ → ℕ → Queues → Option Queues
insert_head t q s = do s1 ← spin_lock q s; s2 ← insert_head_held t q s1; spin_unlock q s2

unfoldable pub insert_tail : ℕ → ℕ → Queues → Option Queues
insert_tail t q s = do s1 ← spin_lock q s; s2 ← insert_tail_held t q s1; spin_unlock q s2

-- tq_remove_head, tq_remove_tail
unfoldable pub remove_head : ℕ → Queues → Option (Option ℕ × Queues)
remove_head q s = do
  s1 ← spin_lock q s
  removed ← remove_head_held q s1
  s2 ← spin_unlock q removed.1
  some (removed.0, s2)

unfoldable pub remove_tail : ℕ → Queues → Option (Option ℕ × Queues)
remove_tail q s = do
  s1 ← spin_lock q s
  removed ← remove_tail_held q s1
  s2 ← spin_unlock q removed.1
  some (removed.0, s2)

-- The second half of a transfer, `if (t)`: the return value is `!!t`.
abbrev pub give_head : Option ℕ → ℕ → Queues → Option (Bool × Queues)
give_head none to_q s = some (false, s)
give_head (some t) to_q s = do s' ← insert_head t to_q s; some (true, s')

abbrev pub give_tail : Option ℕ → ℕ → Queues → Option (Bool × Queues)
give_tail none to_q s = some (false, s)
give_tail (some t) to_q s = do s' ← insert_tail t to_q s; some (true, s')

-- tq_transfer_head_to_head and the others
unfoldable pub transfer_head_to_head : ℕ → ℕ → Queues → Option (Bool × Queues)
transfer_head_to_head from_q to_q s = do
  removed ← remove_head from_q s
  give_head removed.0 to_q removed.1

unfoldable pub transfer_head_to_tail : ℕ → ℕ → Queues → Option (Bool × Queues)
transfer_head_to_tail from_q to_q s = do
  removed ← remove_head from_q s
  give_tail removed.0 to_q removed.1

unfoldable pub transfer_tail_to_head : ℕ → ℕ → Queues → Option (Bool × Queues)
transfer_tail_to_head from_q to_q s = do
  removed ← remove_tail from_q s
  give_head removed.0 to_q removed.1

unfoldable pub transfer_tail_to_tail : ℕ → ℕ → Queues → Option (Bool × Queues)
transfer_tail_to_tail from_q to_q s = do
  removed ← remove_tail from_q s
  give_tail removed.0 to_q removed.1
