-- ===== src/TimerWheel/Run.antt =====
-- src/lib/timer_wheel.c: `_tw_cascade` and `run_timers`, one tick of the wheel. A timer's function
-- is a parameter: from the wheel it sees, the timer and `call_time` it gives the calls it makes on
-- the wheel while the lock is off. Calls of other threads in that gap are such calls too.
pub mod Lists
pub mod Passes
pub mod Cascade
pub mod Due
pub mod Calls
pub mod Functions
use smartdns_ui.Prelude.{
  ℕ, zero, suc, ◌+◌, ◌/◌, ◌%◌, ◌^◌, List, [], ◌∷◌, ◌++◌, length, map, ◌==◌, if◌then◌else◌, Outcome,
  ok, fault, stuck, ◌>>=◌,
}
use smartdns_ui.TimerWheel.Wheel.{
  Timer, Head, tv1, tv2, tv3, tv4, tv5, work_list, same_head, Link, Base, add_timer, detach_timer,
  tw_add_timer, tw_del_timer, tw_mod_timer, tw_mod_timer_pending,
}

-- The list of a head, and what is linked elsewhere.
unfoldable pub timers_on : Head → List Link → List Timer
timers_on h [] = []
timers_on h (l ∷ ls) = if same_head l.head h then l.timer ∷ timers_on h ls else timers_on h ls

unfoldable pub links_off : Head → List Link → List Link
links_off h [] = []
links_off h (l ∷ ls) = if same_head l.head h then links_off h ls else l ∷ links_off h ls

-- `list_for_each_entry_safe` with `_tw_add_timer`
unfoldable pub add_timers : Base → List Timer → Base
add_timers base [] = base
add_timers base (t ∷ ts) = add_timers (add_timer base t) ts

-- `_tw_cascade`, on the list `tv->vec + index`
abbrev pub cascade : Base → Head → Base
cascade base h =
    add_timers (record base { links = links_off h base.links }) (timers_on h base.links)

-- `INDEX(N)` of these jiffies
abbrev pub index0 : ℕ → ℕ
index0 jiffies = jiffies / 2 ^ 10 % 2 ^ 6

abbrev pub index1 : ℕ → ℕ
index1 jiffies = jiffies / 2 ^ 16 % 2 ^ 6

abbrev pub index2 : ℕ → ℕ
index2 jiffies = jiffies / 2 ^ 22 % 2 ^ 6

abbrev pub index3 : ℕ → ℕ
index3 jiffies = jiffies / 2 ^ 28 % 2 ^ 6

-- The cascades of `run_timers`: each wheel is next only if the one before is at its first slot.
abbrev pub cascade5 : ℕ → Base → Base
cascade5 j base = if index2 j == 0 then cascade base (tv5 (index3 j)) else base

abbrev pub cascade4 : ℕ → Base → Base
cascade4 j base = if index1 j == 0 then cascade5 j (cascade base (tv4 (index2 j))) else base

abbrev pub cascade3 : ℕ → Base → Base
cascade3 j base = if index0 j == 0 then cascade4 j (cascade base (tv3 (index1 j))) else base

abbrev pub cascade2 : ℕ → Base → Base
cascade2 j base = if j % 2 ^ 10 == 0 then cascade3 j (cascade base (tv2 (index0 j))) else base

-- `run_timers` as far as its loop: `work_list` has the timers of this tick.
unfoldable pub begin_tick : Base → Base
begin_tick base =
    let h = tv1 (base.jiffies % 2 ^ 10) in
    let links = (cascade2 base.jiffies base).links in
    record {
      jiffies = (base.jiffies + 1) % 2 ^ 64;
      links =
          links_off h links
          ++ map (λ t. record { head = work_list; timer = t }) (timers_on h links);
    }

-- A call on the wheel.
pub data Call : Type 0 where
  add : Timer → Call
  del : ℕ → Call
  mod_pending : Timer → ℕ → Call
  modify : Timer → ℕ → Call

unfoldable pub make_call : Base → Call → Outcome Base
make_call base (add t) = tw_add_timer base t
make_call base (del id) = ok (tw_del_timer base id).1
make_call base (mod_pending t expires) = ok (tw_mod_timer_pending base t expires).1.1
make_call base (modify t expires) = ok (tw_mod_timer base t expires).1.1

unfoldable pub make_calls : Base → List Call → Outcome Base
unfolding make_call
make_calls base [] = ok base
make_calls base (c ∷ cs) = make_call base c >>= λ after. make_calls after cs

module _ (function : Base → Timer → ℕ → List Call) where
  -- `fn(base, timer, data)`: to call a function that is not set is a fault.
  unfoldable pub call_function : ℕ → Base → Timer → Outcome Base
  unfolding make_calls
  call_function call_time base t =
      let called = make_calls base (function base t call_time) in
      if t.function then called else fault

  -- The `while (!list_empty(head))`; the result has the timers whose function was called, in order.
  unfoldable pub run_work : ℕ → ℕ → Base → List Timer → Outcome (List Timer × Base)
  unfolding call_function
  run_work fuel call_time base [] = ok ([], base)
  run_work zero call_time base (t ∷ ts) = stuck
  run_work (suc fuel) call_time base (t ∷ ts) = do
    after ← call_function call_time (detach_timer base t.id) t
    r ← run_work fuel call_time after (timers_on work_list after.links)
    ok (t ∷ r.0, r.1)

  -- No call puts a timer on `work_list`, so as many rounds as it has timers are enough.
  unfoldable pub run_timers : Base → Outcome (List Timer × Base)
  run_timers base =
      let begun = begin_tick base in
      let work = timers_on work_list begun.links in run_work (length work) base.jiffies begun work
