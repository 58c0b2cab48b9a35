-- ===== src/Timers/Tests.antt =====
-- Runs of the timers, and the theorems at one queue.
use wp_lambdamoo.Prelude.{◌+◌, ◌≤◌, ◌<◌, ◌≡◌, refl, none, some, List, [], ◌∷◌, ◌++◌, arith, All}
use wp_lambdamoo.Timers.{Timer, off, ringing_in, Timers, set_timer, cancel_timer, wakeup_call}
use wp_lambdamoo.Timers.Order.{
  IsArmed, IsSortedFrom, IsRunning, set_timer_place, wakeup_call-IsRunning,
}

abbrev first : Timer
first = record { when = 20; proc = 1; data_of = 0; id = 0 }

abbrev second : Timer
second = record { when = 30; proc = 2; data_of = 0; id = 1 }

abbrev queue : Timers
queue = record {
  active = first ∷ second ∷ [];
  virtual = none;
  next_id = 2;
  alarm = ringing_in 10;
  virtual_alarm = off;
}

queue-IsRunning : IsRunning 10 queue
queue-IsRunning = record { sorted = (omega arith, (omega arith, tt)); armed = refl }

between :
    (set_timer 15 0 5 3 0 queue).1.active
    ≡ first ∷ record { when = 20; proc = 3; data_of = 0; id = 2 } ∷ second ∷ []
unfolding set_timer wp_lambdamoo.Timers.insert_timer
between = refl

set_timer_place_example :
    (earlier : List Timer) × (later : List Timer) × (this : Timer) × (queue.active
      ≡ earlier ++ later)
    × ((set_timer 15 0 5 3 0 queue).1.active ≡ earlier ++ this ∷ later)
    × (this.when ≡ 15 + 5)
    × (this.id ≡ (set_timer 15 0 5 3 0 queue).0)
    × All (λ t. t.when ≤ 15 + 5) earlier
    × All (λ t. 15 + 5 < t.when) later
set_timer_place_example = set_timer_place 15 0 5 3 0 10 queue queue-IsRunning

wakeup_call-IsRunning_example :
    (this : Timer) × (rest : List Timer) × (s' : Timers) × (queue.active ≡ this ∷ rest)
    × (wakeup_call 20 queue ≡ some (this, s'))
    × (s'.active ≡ rest)
    × (s'.virtual ≡ queue.virtual)
    × IsSortedFrom this.when rest
    × IsArmed 20 rest s'.alarm
    × IsRunning 20 s'
wakeup_call-IsRunning_example = wakeup_call-IsRunning 20 10 queue queue-IsRunning (λ e. cc)
