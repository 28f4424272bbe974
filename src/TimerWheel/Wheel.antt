-- ===== src/TimerWheel/Wheel.antt =====
-- src/lib/timer_wheel.c: the state of the wheel and the calls that add, change and delete a timer.
-- A timer is known by its `id`, which stands for its address. The list heads of the wheel are kept
-- as one list of links: the list of a head is the links on it, in their order, so that
-- `list_add_tail` appends a link and `list_del` drops the links of a timer. An `unsigned long` has
-- 64 bits, and the masks and shifts of the source are written as remainders and quotients.
pub mod Slots
use smartdns_ui.Prelude.{
  ℕ, ◌+◌, ◌-◌, ◌*◌, ◌/◌, ◌%◌, ◌^◌, Bool, true, false, ◌&&◌, not, List, [], ◌∷◌, ◌++◌, Option, none,
  some, ltb, leb, ◌==◌, if◌then◌else◌, Outcome, ok, fault,
}

-- `struct tw_timer_list` without `data`; `function` says whether it is set.
pub record Timer : Type 0 where
  pub id : ℕ
  pub expires : ℕ
  pub function : Bool

-- The list heads: those of the wheel by their index in `vec`, and the `work_list` of `run_timers`.
pub data Head : Type 0 where
  tv1 : ℕ → Head
  tv2 : ℕ → Head
  tv3 : ℕ → Head
  tv4 : ℕ → Head
  tv5 : ℕ → Head
  work_list : Head

pub level : Head → ℕ
level (tv1 i) = 1
level (tv2 i) = 2
level (tv3 i) = 3
level (tv4 i) = 4
level (tv5 i) = 5
level work_list = 0

pub index : Head → ℕ
index (tv1 i) = i
index (tv2 i) = i
index (tv3 i) = i
index (tv4 i) = i
index (tv5 i) = i
index work_list = 0

unfoldable pub same_head : Head → Head → Bool
unfolding level index
same_head h k = (level h == level k) && (index h == index k)

pub record Link : Type 0 where
  pub head : Head
  pub timer : Timer

-- `struct tw_base`
pub record Base : Type 0 where
  pub jiffies : ℕ
  pub links : List Link

abbrev pub max_tval : ℕ
max_tval = 2 ^ 34 - 1

-- The list that `_tw_add_timer` picks, by `base->jiffies` and `timer->expires`.
unfoldable pub pick_vec : ℕ → ℕ → Head
pick_vec jiffies expires =
    let idx = (expires + 2 ^ 64 - jiffies) % 2 ^ 64 in
    if ltb idx (2 ^ 10)
    then tv1 (expires % 2 ^ 10)
    else if ltb idx (2 ^ 16)
    then tv2 (expires / 2 ^ 10 % 2 ^ 6)
    else if ltb idx (2 ^ 22)
    then tv3 (expires / 2 ^ 16 % 2 ^ 6)
    else if ltb idx (2 ^ 28)
    then tv4 (expires / 2 ^ 22 % 2 ^ 6)
    else if leb (2 ^ 63) idx
    then tv1 (jiffies % 2 ^ 10)
    else if ltb max_tval idx
    then tv5 ((max_tval + jiffies) % 2 ^ 64 / 2 ^ 28 % 2 ^ 6)
    else tv5 (expires / 2 ^ 28 % 2 ^ 6)

-- `_tw_add_timer`
abbrev pub add_timer : Base → Timer → Base
add_timer base timer = record base {
  links = base.links ++ record { head = pick_vec base.jiffies timer.expires; timer = timer } ∷ [];
}

unfoldable pub unlink : ℕ → List Link → List Link
unlink id [] = []
unlink id (l ∷ ls) = if l.timer.id == id then unlink id ls else l ∷ unlink id ls

-- `_tw_detach_timer`
abbrev pub detach_timer : Base → ℕ → Base
detach_timer base id = record base { links = unlink id base.links }

-- `timer_pending`: the timer, as the wheel has it, when it is linked.
unfoldable pub find_timer : ℕ → List Link → Option Timer
find_timer id [] = none
find_timer id (l ∷ ls) = if l.timer.id == id then some l.timer else find_timer id ls

abbrev pub timer_pending : Base → ℕ → Bool
timer_pending base id = elim (find_timer id base.links) [ none ↦ false | some t ↦ true ]

-- `__mod_timer`; a result is the value returned and the wheel.
abbrev pub mod_timer : Base → Timer → Bool → ℕ × Base
mod_timer base timer pending_only =
    if not (timer_pending base timer.id) && pending_only
    then (0, base)
    else (1, add_timer (detach_timer base timer.id) timer)

-- `list_add_tail` of a timer that is linked already breaks two lists: the call tests nothing, and is
-- a fault then.
abbrev pub tw_add_timer : Base → Timer → Outcome Base
tw_add_timer base timer =
    let added =
      add_timer base
        (record timer { expires = (timer.expires + base.jiffies + 2 ^ 64 - 1) % 2 ^ 64 }) in
    if not timer.function then ok base else if timer_pending base timer.id then fault else ok added

abbrev pub tw_del_timer : Base → ℕ → ℕ × Base
tw_del_timer base id = if timer_pending base id then (1, detach_timer base id) else (0, base)

-- `timer->expires = expires + base->jiffies - 1`
abbrev pub due_in : Base → Timer → ℕ → Timer
due_in base timer expires = record timer {
  expires = (expires + base.jiffies + 2 ^ 64 - 1) % 2 ^ 64;
}

-- The timer comes back with the deadline it now has: this call sets it also where it links nothing.
abbrev pub tw_mod_timer_pending : Base → Timer → ℕ → Timer × (ℕ × Base)
tw_mod_timer_pending base timer expires =
    let t = due_in base timer expires in (t, mod_timer base t true)

abbrev pub tw_mod_timer : Base → Timer → ℕ → Timer × (ℕ × Base)
tw_mod_timer base timer expires =
    if timer_pending base timer.id && (timer.expires == expires)
    then (timer, (1, base))
    else (let t = due_in base timer expires in (t, mod_timer base t false))
