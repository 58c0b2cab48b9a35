-- ===== src/Timers/Order.antt =====
-- The queue of timers.c keeps its order, and the alarm is its first timer's.
use wp_lambdamoo.Prelude.{
  ℕ, ◌+◌, ◌-◌, ◌≤◌, ◌<◌, ◌≡◌, refl, ap, ◌≢◌, inl, inr, some, List, [], ◌∷◌, ◌++◌, arith, ltb, leb,
  ◌==◌, if◌then◌else◌, leb→le, Bool-cases, All,
}
use wp_lambdamoo.Timers.{
  Timer, Alarm, off, ringing_in, raised, Timers, stop_timers, restart_timers, real_alarm, with_when,
  insert_timer, remove_timer, set_timer, cancel_timer, wakeup_call, has_id,
}

-- Timers in the order of their times, from `least` on.
abbrev pub IsSortedFrom : ℕ → List Timer → Type 0
IsSortedFrom least [] = Unit
IsSortedFrom least (t ∷ ts) = (least ≤ t.when) × IsSortedFrom t.when ts

IsSortedFrom-weaken : (a b : ℕ) (ts : List Timer) → a ≤ b → IsSortedFrom b ts → IsSortedFrom a ts
IsSortedFrom-weaken a b [] h s = tt
IsSortedFrom-weaken a b (t ∷ ts) h (le, s) = (omega arith, s)

insert_timer-IsSortedFrom :
    (least : ℕ) (this : Timer) (ts : List Timer)
    → least ≤ this.when
    → IsSortedFrom least ts
    → IsSortedFrom least (insert_timer this ts)
unfolding insert_timer
insert_timer-IsSortedFrom least this [] h s = (h, tt)
insert_timer-IsSortedFrom least this (t ∷ ts) h (le, s) = elim (Bool-cases (leb t.when this.when)) [
  | inl later ↦
      rw later ((le, insert_timer-IsSortedFrom t.when this ts (leb→le t.when this.when later) s))
  | inr first ↦ rw first ((h, (ground arith, s)))
]

remove_timer-IsSortedFrom :
    (least id : ℕ) (ts : List Timer)
    → IsSortedFrom least ts
    → IsSortedFrom least (remove_timer id ts).1
unfolding remove_timer
remove_timer-IsSortedFrom least id [] s = tt
remove_timer-IsSortedFrom least id (t ∷ ts) (le, s) = elim (Bool-cases (t.id == id)) [
  | inl this ↦ rw this (IsSortedFrom-weaken least t.when ts le s)
  | inr other ↦ rw other ((le, remove_timer-IsSortedFrom t.when id ts s))
]

-- The alarm that the queue wants, if it is not the moment now that decides.
abbrev pub IsArmed : ℕ → List Timer → Alarm → Type 0
IsArmed now [] a = a ≡ off
IsArmed now (t ∷ ts) a = a ≡ (if ltb now t.when then ringing_in (t.when - now) else raised)

-- Between operations: the queue is in order, and the alarm of the process is set for its first timer
-- as of the last operation, at `now`.
pub record IsRunning (now : ℕ) (s : Timers) : Type 0 where
  pub sorted : IsSortedFrom 0 s.active
  pub armed : IsArmed now s.active s.alarm

real_alarm-IsArmed : (now : ℕ) (ts : List Timer) → IsArmed now ts (real_alarm now ts off)
real_alarm-IsArmed now [] = refl
real_alarm-IsArmed now (t ∷ ts) = refl

-- Setting a timer keeps the queue in order and arms the alarm for its first timer.
pub set_timer-IsRunning :
    (now left seconds proc data_of before : ℕ) (s : Timers)
    → IsRunning before s
    → IsRunning now (set_timer now left seconds proc data_of s).1
unfolding set_timer
set_timer-IsRunning now left seconds proc data_of before s running = record {
  sorted = insert_timer-IsSortedFrom 0 _ s.active (omega arith) running.sorted;
  armed = real_alarm-IsArmed now _;
}

-- So does cancelling one.
pub cancel_timer-IsRunning :
    (now left id before : ℕ) (s : Timers)
    → IsRunning before s
    → IsRunning now (cancel_timer now left id s).1
unfolding cancel_timer stop_timers restart_timers
cancel_timer-IsRunning now left id before s running =
    elim (Bool-cases (has_id id (with_when left s.virtual))) [
      | inl this ↦
          rw this (record { sorted = running.sorted; armed = real_alarm-IsArmed now s.active })
      | inr other ↦ rw other (record {
        sorted = remove_timer-IsSortedFrom 0 id s.active running.sorted;
        armed = real_alarm-IsArmed now _;
      })
    ]

fire :
    (now before : ℕ) (s : Timers) (ts : List Timer)
    → s.active ≡ ts
    → IsSortedFrom 0 ts
    → IsArmed before ts s.alarm
    → s.alarm ≢ off
    → (this : Timer) × (rest : List Timer) × (s' : Timers) × (s.active ≡ this ∷ rest)
      × (wakeup_call now s ≡ some (this, s'))
      × (s'.active ≡ rest)
      × (s'.virtual ≡ s.virtual)
      × IsSortedFrom this.when rest
      × IsArmed now rest s'.alarm
      × IsRunning now s'
unfolding wakeup_call restart_timers
fire now before s [] e sorted armed rings = absurd (rings armed)
fire now before s (t ∷ ts) e (le, sorted) armed rings = (
  t,
  ts,
  restart_timers now (record s { active = ts; alarm = off }),
  e,
  rw e,
  refl,
  refl,
  sorted,
  real_alarm-IsArmed now ts,
  record {
    sorted = IsSortedFrom-weaken 0 t.when ts (omega arith) sorted;
    armed = real_alarm-IsArmed now ts;
  },
)

-- On a running queue whose alarm is set or raised, the handler of the signal finds a timer: it takes
-- the first of the queue, which is due no later than the others, leaves the others in their order and
-- the virtual timer as it was, and arms the alarm for the next one.
pub wakeup_call-IsRunning :
    (now before : ℕ) (s : Timers)
    → IsRunning before s
    → s.alarm ≢ off
    → (this : Timer) × (rest : List Timer) × (s' : Timers) × (s.active ≡ this ∷ rest)
      × (wakeup_call now s ≡ some (this, s'))
      × (s'.active ≡ rest)
      × (s'.virtual ≡ s.virtual)
      × IsSortedFrom this.when rest
      × IsArmed now rest s'.alarm
      × IsRunning now s'
wakeup_call-IsRunning now before s running rings =
    fire now before s s.active refl running.sorted running.armed rings

All-later :
    (w least : ℕ) (ts : List Timer) → w < least → IsSortedFrom least ts → All (λ t. w < t.when) ts
All-later w least [] h s = tt
All-later w least (t ∷ ts) h (le, s) = (omega arith, All-later w t.when ts (omega arith) s)

split_at :
    (this : Timer) (ts : List Timer) (least : ℕ)
    → IsSortedFrom least ts
    → (earlier : List Timer) × (later : List Timer) × (ts ≡ earlier ++ later)
      × (insert_timer this ts ≡ earlier ++ this ∷ later)
      × All (λ t. t.when ≤ this.when) earlier
      × All (λ t. this.when < t.when) later
unfolding insert_timer
split_at this [] least s = ([], [], refl, refl, tt, tt)
split_at this (t ∷ ts) least (le, s) = elim (Bool-cases (leb t.when this.when)) [
  | inl later ↦
      let (xs, ys, e, e', hx, hy) = split_at this ts t.when s in
      (t ∷ xs, ys, ap (λ z. t ∷ z) e, rw (later, e'), (leb→le t.when this.when later, hx), hy)
  | inr first ↦
      let lt : this.when < t.when = ground arith in
      ([], t ∷ ts, refl, rw first, tt, (lt, All-later this.when t.when ts lt s))
]

-- A new timer stands behind those that are due no later and in front of those that are due later.
pub set_timer_place :
    (now left seconds proc data_of before : ℕ) (s : Timers)
    → IsRunning before s
    → (earlier : List Timer) × (later : List Timer) × (this : Timer) × (s.active ≡ earlier ++ later)
      × ((set_timer now left seconds proc data_of s).1.active ≡ earlier ++ this ∷ later)
      × (this.when ≡ now + seconds)
      × (this.id ≡ (set_timer now left seconds proc data_of s).0)
      × All (λ t. t.when ≤ now + seconds) earlier
      × All (λ t. now + seconds < t.when) later
unfolding set_timer
set_timer_place now left seconds proc data_of before s running =
    let this : Timer = record {
      when = now + seconds;
      proc = proc;
      data_of = data_of;
      id = s.next_id;
    } in
    let (earlier, later, e, e', before_it, behind_it) = split_at this s.active 0 running.sorted in
    (earlier, later, this, e, e', refl, refl, before_it, behind_it)
