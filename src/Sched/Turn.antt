-- ===== src/Sched/Turn.antt =====
-- Whose turn it is: sched0_yield and sched0_tick of kernel/sched0.c.
use koowaldah.Base.{
  ℕ, ◌+◌, ◌-◌, ◌<◌, ◌^◌, some, true, List, [], ◌∷◌, ◌++◌, ◌≡◌, ◌≢◌, arith, refl, sym, length,
  append-nil, append_assoc, Bool-cases, inl, inr, ◌==◌, ne→==, ==_self, sub32,
}
use mathlib.Core.Path.{subst}
use koowaldah.Klist.Laws.{is_empty_lem}
use koowaldah.ThreadQueue
use koowaldah.ThreadQueue.{Queues}
use koowaldah.ThreadQueue.Holds.{Holds, Keeps}
use koowaldah.Sched.{
  Sched, max_quantum, yield, yields, tick, expire, choose, switch_to, set_quantum, set_last_tick,
}
use koowaldah.Sched.Rotate.{rotate_lem}

-- The scheduler's run queue holds the threads `ts`, and is not locked.
abbrev pub Ready : List ℕ → Sched → Type 0
Ready ts s = Holds s.rq 0 ts s.queues

-- sched0_yield runs the first thread of the run queue, which becomes the last; the thread that ran
-- gets a full quantum; no other queue is changed.
pub yield_lem :
    (x : ℕ) (xs : List ℕ) (s : Sched)
    → Ready (x ∷ xs) s
    → (s' : Sched) × (yield s ≡ some s')
      × (s'.current ≡ x)
      × Ready (xs ++ x ∷ []) s'
      × (s'.quantum s.current ≡ max_quantum)
      × (s'.rq ≡ s.rq)
      × Keeps (s.rq ∷ x ∷ xs) s.queues s'.queues
unfolding yield switch_to
yield_lem x xs s ready =
    let (qs, run, turned, keeps) = rotate_lem s.rq x xs s.queues ready in
    (switch_to x qs s, rw run refl, refl, turned, ground arith, refl, keeps)

-- Round robin: with the run queue in order and unlocked, in as many yields as there are threads in
-- a front part of the run queue, these threads run once each, in the queue's order, and then stand
-- behind the others.
pub yields_lem :
    (xs ys : List ℕ) (s : Sched)
    → Ready (xs ++ ys) s
    → (s' : Sched) × (yields (length xs) s ≡ some (xs, s')) × Ready (ys ++ xs) s'
unfolding yields
yields_lem [] ys s ready = (s, refl, rw (append-nil ys) ready)
yields_lem (x ∷ xs) ys s ready =
    let (s1, run1, chosen, turned, _, _, _) = yield_lem x (xs ++ ys) s ready in
    let turned' = subst (λ ts. Ready ts s1) (append_assoc xs ys (x ∷ [])) turned in
    let (s2, run2, last) = yields_lem xs (ys ++ x ∷ []) s1 turned' in
    (s2, rw (run1, run2, chosen) refl, subst (λ ts. Ready ts s2) (append_assoc ys (x ∷ []) xs) last)

-- sched0_tick while the quantum lasts: it is counted down, and nothing else happens to the queues
-- or to the choice of the next thread.
pub tick-running :
    (x : ℕ) (xs : List ℕ) (s : Sched)
    → Ready (x ∷ xs) s
    → 1 < s.quantum s.current
    → s.quantum s.current < 2 ^ 32
    → (s' : Sched) × (tick s ≡ some s')
      × (s'.queues ≡ s.queues)
      × (s'.quantum s.current + 1 ≡ s.quantum s.current)
      × (s'.need_reschedule ≡ s.need_reschedule)
unfolding tick ThreadQueue.is_empty
tick-running x xs s ready more word =
    let s' =
      set_last_tick s.current s.jiffies (set_quantum s.current (sub32 (s.quantum s.current) 1) s) in
    let less : sub32 (s.quantum s.current) 1 ≡ s.quantum s.current - 1 = omega arith in
    (
      s',
      rw
          (
            is_empty_lem s.queues.links s.rq (x ∷ xs) ready.ring,
            ==_self s.current,
            less,
            ne→== (s.quantum s.current - 1) 0 (omega arith),
          )
          refl,
      refl,
      ground arith,
      refl,
    )

choose-Ready :
    (next : ℕ) (qs : Queues) (s : Sched) (ts : List ℕ)
    → Holds s.rq 0 ts qs
    → Ready ts (choose next qs s)
unfolding choose
choose-Ready next qs s ts holds = elim (Bool-cases (s.current == next)) [
  | inl same ↦ rw same holds
  | inr other ↦ rw other holds
]

-- With the run queue in order, unlocked and not empty, sched0_tick at the last tick of a quantum:
-- the current thread gets a full quantum again, the first thread of the run queue becomes its
-- last, and a reschedule to it is asked for, unless it is the current thread itself.
pub tick-expired :
    (x : ℕ) (xs : List ℕ) (s : Sched)
    → Ready (x ∷ xs) s
    → s.quantum s.current ≡ 1
    → (s' : Sched) × (tick s ≡ some s')
      × Ready (xs ++ x ∷ []) s'
      × (s'.quantum s.current ≡ max_quantum)
      × (x ≢ s.current → (s'.need_reschedule ≡ true) × (s'.next_thread ≡ some x))
      × (x ≡ s.current
          → (s'.need_reschedule ≡ s.need_reschedule) × (s'.next_thread ≡ s.next_thread))
unfolding tick expire choose ThreadQueue.is_empty
tick-expired x xs s ready last =
    let (qs, run, turned, keeps) = rotate_lem s.rq x xs s.queues ready in
    let counted = set_quantum s.current (sub32 (s.quantum s.current) 1) s in
    let s' =
      set_last_tick s.current s.jiffies (choose x qs (set_quantum s.current max_quantum counted)) in
    (
      s',
      rw (is_empty_lem s.queues.links s.rq (x ∷ xs) ready.ring, ==_self s.current, last, run) refl,
      choose-Ready x qs (set_quantum s.current max_quantum counted) (xs ++ x ∷ []) turned,
      ground arith,
      λ ne. rw (ne→== s.current x (λ e. ne (sym e))) (refl, refl),
      λ e. rw (e, ==_self s.current) (refl, refl),
    )
