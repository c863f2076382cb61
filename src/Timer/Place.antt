-- ===== src/Timer/Place.antt =====
-- The search of tsleep for the place of a new sleeper.
use koowaldah.Base.{
  ℕ, ◌+◌, ◌-◌, Option, none, some, List, [], ◌∷◌, ◌++◌, ◌≡◌, ◌≢◌, ◌⊎◌, inl, inr, refl, ap, arith,
  Bool-cases, ltb, ltb→lt, ltb→le, ◌==◌, ==→eq, sym,
}
use koowaldah.Base.Checked.{bug_on-some}
use koowaldah.Timer.{
  Interval, Found, no_memory, made, joined, place, sleep_on, Timers, tsleep, finish, update_timers,
  enomem,
}

-- The sums of the ticks from the front of the list, with the queues of the intervals.
unfoldable pub sums : ℕ → List Interval → List (ℕ × ℕ)
sums base [] = []
sums base (i ∷ is) = (i.wake_list, base + i.ticks_left) ∷ sums (base + i.ticks_left) is

-- A sleeper with the sum `at` was added to `old`, which gave `new`: it joined the interval with that
-- sum, or got an interval of its own, and all others keep their sums.
abbrev pub Added : ℕ → Found → List (ℕ × ℕ) → List (ℕ × ℕ) → Type 0
Added at found old new =
    (w : ℕ) × (front : List (ℕ × ℕ)) × (back : List (ℕ × ℕ)) × (((found ≡ joined w)
        × (old ≡ front ++ (w, at) ∷ back)
        × (new ≡ old))
      ⊎ ((found ≡ made w) × (old ≡ front ++ back) × (new ≡ front ++ (w, at) ∷ back)))

Added-cons :
    (at at' : ℕ) (found : Found) (p : ℕ × ℕ) (old new : List (ℕ × ℕ))
    → at ≡ at'
    → Added at found old new
    → Added at' found (p ∷ old) (p ∷ new)
Added-cons at at' found p old new e (w, front, back, inl (f, o, n)) = (
  w,
  p ∷ front,
  back,
  inl (f, rw (sym e) (ap (λ (l : List (ℕ × ℕ)). p ∷ l) o), ap (λ (l : List (ℕ × ℕ)). p ∷ l) n),
)
Added-cons at at' found p old new e (w, front, back, inr (f, o, n)) = (
  w,
  p ∷ front,
  back,
  inr (f, ap (λ (l : List (ℕ × ℕ)). p ∷ l) o, rw (sym e) (ap (λ (l : List (ℕ × ℕ)). p ∷ l) n)),
)

-- With memory at hand, tsleep finds a queue whose sum of ticks is the delay, of an interval that
-- is there or of a new one, and no other interval's sum changes.
pub place_lem :
    (w base delay : ℕ) (is : List Interval)
    → let (found, is') = place (some w) delay is in
      Added (base + delay) found (sums base is) (sums base is')
unfolding place sums
place_lem w base delay [] = (w, [], [], inr (refl, refl, refl))
place_lem w base delay (i ∷ is) = elim (Bool-cases (ltb delay i.ticks_left)) [
  | inl less ↦ rw less (
      let same : base + delay + (i.ticks_left - delay) ≡ base + i.ticks_left =
        omega (arith, ltb→lt delay i.ticks_left less) in
      (w, [], sums base (i ∷ is), inr (refl, refl, rw same refl)))
  | inr not_less ↦ rw not_less (elim (Bool-cases (delay == i.ticks_left)) [
    | inl same ↦ rw same (
        let e = ==→eq delay i.ticks_left same in
        (i.wake_list, [], sums (base + i.ticks_left) is, inl (refl, rw e refl, refl)))
    | inr other ↦ rw other (
        Added-cons _ _ _ _ _ _ (omega (arith, ltb→le delay i.ticks_left not_less))
          (place_lem w (base + i.ticks_left) (delay - i.ticks_left) is))
  ])
]

sleep_on-asleep : (w : ℕ) (is : List Interval) (s s' : Timers) → sleep_on w is s ≢ some (enomem, s')
unfolding sleep_on
sleep_on-asleep w is s s' e = ground arith

finish-enomem :
    (found : Found) (is : List Interval) (s s' : Timers)
    → finish found is s ≡ some (enomem, s')
    → s'.lock ≡ 1
unfolding finish
finish-enomem no_memory is s s' e = ground arith
finish-enomem (made w) is s s' e = absurd (sleep_on-asleep w is _ s' e)
finish-enomem (joined w) is s s' e = absurd (sleep_on-asleep w is s s' e)

-- Once tsleep has failed for want of memory, the lock is held: the next tick of the clock is a
-- bug.
pub tsleep-enomem :
    (fresh : Option ℕ) (delay fuel : ℕ) (s s' : Timers)
    → tsleep fresh delay s ≡ some (enomem, s')
    → update_timers fuel s' ≡ none
unfolding tsleep update_timers
tsleep-enomem fresh delay fuel s s' e =
    let found = place fresh delay s.future in
    let held = finish-enomem found.0 found.1 s s' (bug_on-some _ _ (enomem, s') e) in rw held refl
