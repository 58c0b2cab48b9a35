-- ===== src/Timers.antt =====
-- timers.c: the queue of timers in order of their times, the one virtual timer, and the two alarms of
-- the process that they drive. The clock, the time left of the virtual alarm and a callback's effect
-- are arguments; a signal that is raised is pending in the state, and its handler an operation.
pub mod Order
mod Tests
use wp_lambdamoo.Strings.Strtol.{to_unsigned}
use wp_lambdamoo.Prelude.{
  ℕ, zero, suc, ◌+◌, ◌-◌, ◌*◌, ◌/◌, ◌%◌, ◌^◌, ◌≤◌, ◌<◌, ◌≡◌, refl, sym, ap, ◌∙◌, ◌≢◌, ◌↔◌, ◌⊎◌, inl,
  inr, Bool, true, false, not, ◌&&◌, ◌||◌, Option, none, some, List, [], ◌∷◌, ◌++◌, map,
  append_assoc, append-nil, arith, ltb, leb, ◌==◌, if◌then◌else◌, ltb→lt, lt→ltb, leb→le, ==_iff,
  ==-refl, Bool-cases, Option-cases, every, every_at, length, get_elem?, set, take, drop,
  length-append, length-take, length-drop, take-append-drop, drop-append, take-append, All, ℤ, pos,
  negsuc, pos_part, neg_part, sub_ℕ, ◌+ℤ◌, ◌-ℤ◌, ◌*ℤ◌, ◌≤ℤ◌, leb_ℤ, ltb_ℤ, ◌==ℤ◌, ==ℤ_iff, ==ℤ-refl,
  drop-nil, take-nil, pred_pos, pred_negsuc, suc-ne-zero, take_all, drop_all, succ_pos, sub_pos,
  drop-drop, or-eq-false, ==ℤ-sym, or_right, clash,
}

-- struct Timer_Entry; proc and data are known by their addresses, 0 for a null proc.
pub record Timer : Type 0 where
  pub when : ℕ
  pub proc : ℕ
  pub data_of : ℕ
  pub id : ℕ

-- What the kernel holds for the process: no alarm, one to ring, or a signal to deliver.
pub data Alarm : Type 0 where
  off : Alarm
  ringing_in : ℕ → Alarm
  raised : Alarm

-- The static variables, but the list of free blocks.
pub record Timers : Type 0 where
  pub active : List Timer
  pub virtual : Option Timer
  pub next_id : ℕ
  pub alarm : Alarm
  pub virtual_alarm : Alarm

abbrev pub with_when : ℕ → Option Timer → Option Timer
with_when left none = none
with_when left (some t) = some (record t { when = left })

-- stop_timers; `left` is what setitimer returns.
unfoldable pub stop_timers : ℕ → Timers → Timers
stop_timers left s = record s {
  virtual = with_when left s.virtual;
  alarm = off;
  virtual_alarm = off;
}

abbrev pub real_alarm : ℕ → List Timer → Alarm → Alarm
real_alarm now [] a = a
real_alarm now (t ∷ ts) a = if ltb now t.when then ringing_in (t.when - now) else raised

abbrev pub cpu_alarm : Option Timer → Alarm → Alarm
cpu_alarm none a = a
cpu_alarm (some t) a = if ltb 0 t.when then ringing_in t.when else raised

unfoldable pub restart_timers : ℕ → Timers → Timers
restart_timers now s = record s {
  alarm = real_alarm now s.active s.alarm;
  virtual_alarm = cpu_alarm s.virtual s.virtual_alarm;
}

-- wakeup_call, up to the call of the timer's proc; `none` is a signal without a timer, a fault.
unfoldable pub wakeup_call : ℕ → Timers → Option (Timer × Timers)
unfolding restart_timers
wakeup_call now s = elim s.active [
  | [] ↦ none
  | this ∷ rest ↦ some (this, restart_timers now (record s { active = rest; alarm = off }))
]

unfoldable pub virtual_wakeup_call : Timers → Option (Timer × Timers)
virtual_wakeup_call s = elim s.virtual [
  | none ↦ none
  | some this ↦ some (this, record s { virtual = none; virtual_alarm = off })
]

-- The search of `set_timer` for the place of the new entry.
unfoldable pub insert_timer : Timer → List Timer → List Timer
insert_timer this [] = this ∷ []
insert_timer this (t ∷ ts) =
    let rest = insert_timer this ts in if leb t.when this.when then t ∷ rest else this ∷ t ∷ ts

-- `next_id++` of an int; the identifiers are its values as unsigned numbers.
abbrev pub succ_id : ℕ → ℕ
succ_id n = (n + 1) % 2 ^ 32

-- The clock, which the code reads here and again in restart_timers, is read once.
unfoldable pub set_timer : ℕ → ℕ → ℕ → ℕ → ℕ → Timers → ℕ × Timers
unfolding stop_timers restart_timers
set_timer now left seconds proc data_of s =
    let this : Timer = record {
      when = now + seconds;
      proc = proc;
      data_of = data_of;
      id = s.next_id;
    } in
    let stopped = stop_timers left (record s { next_id = succ_id s.next_id }) in
    (this.id, restart_timers now (record stopped { active = insert_timer this stopped.active }))

-- `none` is the return of -1, where a virtual timer is set already.
unfoldable pub set_virtual_timer : ℕ → ℕ → ℕ → ℕ → ℕ → Timers → Option ℕ × Timers
unfolding stop_timers restart_timers
set_virtual_timer now left seconds proc data_of s = elim s.virtual [
  | some t ↦ (none, s)
  | none ↦
      let this : Timer = record {
        when = seconds;
        proc = proc;
        data_of = data_of;
        id = s.next_id;
      } in
      let stopped = stop_timers left s in
      (
        some this.id,
        restart_timers now (record stopped { virtual = some this; next_id = succ_id s.next_id }),
      )
]

abbrev pub has_id : ℕ → Option Timer → Bool
has_id id none = false
has_id id (some t) = t.id == id

unfoldable pub interval_loop : ℕ → ℕ → List Timer → ℕ
interval_loop now id [] = 0
interval_loop now id (t ∷ ts) =
    let rest = interval_loop now id ts in
    if t.id == id then to_unsigned (pos t.when -ℤ pos now) else rest

-- timer_wakeup_interval; `left` is what getitimer returns. All is returned as unsigned.
unfoldable pub timer_wakeup_interval : ℕ → ℕ → ℕ → Timers → ℕ
unfolding interval_loop
timer_wakeup_interval now left id s =
    if has_id id s.virtual then left % 2 ^ 32 else interval_loop now id s.active

unfoldable pub remove_timer : ℕ → List Timer → Bool × List Timer
remove_timer id [] = (false, [])
remove_timer id (t ∷ ts) =
    let rest = remove_timer id ts in if t.id == id then (true, ts) else (rest.0, t ∷ rest.1)

unfoldable pub cancel_timer : ℕ → ℕ → ℕ → Timers → Bool × Timers
unfolding stop_timers restart_timers remove_timer
cancel_timer now left id s =
    let stopped = stop_timers left s in
    if has_id id stopped.virtual
    then (true, restart_timers now (record stopped { virtual = none }))
    else (let removed = remove_timer id stopped.active in
        (removed.0, restart_timers now (record stopped { active = removed.1 })))
