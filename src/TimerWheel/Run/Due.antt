-- ===== src/TimerWheel/Run/Due.antt =====
-- The timers of a tick: which ones `run_timers` takes off the wheel, and what it leaves.
use smartdns_ui.Prelude.{
  ℕ, ◌+◌, ◌%◌, ◌^◌, ◌≤◌, ◌<◌, ◌≡◌, refl, ◌∙◌, ◌⊎◌, inl, inr, arith, Bool, true, false, Bool-cases,
  List, [], ◌∷◌, ◌++◌, map, All, All-append, if◌then◌else◌,
}
use smartdns_ui.TimerWheel.Wheel.{
  Timer, Head, tv1, tv2, tv3, tv4, tv5, work_list, same_head, Link, Base, add_timer,
}
use smartdns_ui.TimerWheel.Wheel.Slots.{OnTime}
use smartdns_ui.TimerWheel.Run.{
  timers_on, links_off, add_timers, cascade, cascade2, cascade3, cascade4, cascade5, begin_tick,
}
use smartdns_ui.TimerWheel.Run.Lists.{Fits, links_off-All, timers_on-All}
use smartdns_ui.TimerWheel.Run.Cascade.{AllPassed, cascade2-Wheel}

-- How many links hold a timer of a kind.
abbrev pub count : (Timer → Bool) → List Link → ℕ
count p [] = 0
count p (l ∷ ls) = (if p l.timer then 1 else 0) + count p ls

abbrev count_timers : (Timer → Bool) → List Timer → ℕ
count_timers p [] = 0
count_timers p (t ∷ ts) = (if p t then 1 else 0) + count_timers p ts

module _ (p : Timer → Bool) where
  count-append : (ls ks : List Link) → count p (ls ++ ks) ≡ count p ls + count p ks
  count-append [] ks = omega arith
  count-append (l ∷ ls) ks = omega (arith, count-append ls ks)

  count-split :
      (h : Head) (ls : List Link)
      → count p (links_off h ls) + count_timers p (timers_on h ls) ≡ count p ls
  unfolding links_off timers_on
  count-split h [] = refl
  count-split h (l ∷ ls) = elim (Bool-cases (same_head l.head h)) [
    | inl e ↦ rw e (omega (arith, count-split h ls))
    | inr e ↦ rw e (omega (arith, count-split h ls))
  ]

  count-add_timers :
      (ts : List Timer) (base : Base)
      → count p (add_timers base ts).links ≡ count p base.links + count_timers p ts
  unfolding add_timers
  count-add_timers [] base = omega arith
  count-add_timers (t ∷ ts) base =
      omega (arith, count-add_timers ts (add_timer base t), count-append base.links _)

  count-cascade : (h : Head) (base : Base) → count p (cascade base h).links ≡ count p base.links
  count-cascade h base = count-add_timers (timers_on h base.links) _ ∙ count-split h base.links

  count-if :
      (c : Bool) (before after : Base)
      → count p after.links ≡ count p before.links
      → count p (if c then after else before).links ≡ count p before.links
  count-if true before after e = e
  count-if false before after e = refl

  count-cascade5 : (j : ℕ) (base : Base) → count p (cascade5 j base).links ≡ count p base.links
  count-cascade5 j base = count-if _ base _ (count-cascade _ base)

  count-cascade4 : (j : ℕ) (base : Base) → count p (cascade4 j base).links ≡ count p base.links
  count-cascade4 j base = count-if _ base _ (count-cascade5 j _ ∙ count-cascade _ base)

  count-cascade3 : (j : ℕ) (base : Base) → count p (cascade3 j base).links ≡ count p base.links
  count-cascade3 j base = count-if _ base _ (count-cascade4 j _ ∙ count-cascade _ base)

  count-cascade2 : (j : ℕ) (base : Base) → count p (cascade2 j base).links ≡ count p base.links
  count-cascade2 j base = count-if _ base _ (count-cascade3 j _ ∙ count-cascade _ base)

  count-map :
      (ts : List Timer)
      → count p (map (λ t. record { head = work_list; timer = t }) ts) ≡ count_timers p ts
  count-map [] = refl
  count-map (t ∷ ts) = omega (arith, count-map ts)

module _ (j : ℕ) where
  off_tick :
      (k : Head) (e : ℕ)
      → same_head k (tv1 (j % 2 ^ 10)) ≡ false
      → AllPassed j k e
      → OnTime (j + 1) k e × (j < e)
  unfolding same_head
  off_tick (tv1 i) e q w = (ground arith, ground arith)
  off_tick (tv2 i) e q w = (w, omega (arith, w.ahead, w.early))
  off_tick (tv3 i) e q w = (w, omega (arith, w.ahead, w.early))
  off_tick (tv4 i) e q w = (w, omega (arith, w.ahead, w.early))
  off_tick (tv5 i) e q w = (w, omega (arith, w.ahead, w.early))
  off_tick work_list e q w = elim w [ ]

  on_tick : (k : Head) (e : ℕ) → same_head k (tv1 (j % 2 ^ 10)) ≡ true → AllPassed j k e → e ≤ j
  unfolding same_head
  on_tick (tv1 i) e q w = ground arith
  on_tick (tv2 i) e q w = ground arith
  on_tick (tv3 i) e q w = ground arith
  on_tick (tv4 i) e q w = ground arith
  on_tick (tv5 i) e q w = ground arith
  on_tick work_list e q w = elim w [ ]

-- A timer of the tick that has begun is on the work list with its deadline over; every other one
-- has its deadline ahead and a place on the wheel for it.
abbrev pub Begun : ℕ → Head → ℕ → Type 0
Begun j k e = ((k ≡ work_list) × (e ≤ j)) ⊎ (OnTime (j + 1) k e × (j < e))

work-Begun :
    (j : ℕ) (ts : List Timer)
    → All (λ t. (t.expires ≤ j) × (t.expires < 2 ^ 63)) ts
    → All (Fits (Begun j)) (map (λ t. record { head = work_list; timer = t }) ts)
work-Begun j [] a = tt
work-Begun j (t ∷ ts) a = ((inl (refl, a.0.0), a.0.1), work-Begun j ts a.1)

-- On a wheel whose timers all stand on time, the beginning of a tick of `run_timers`, cascades
-- included, puts on the work list the timers whose deadline is over, and no other: those left have
-- a deadline ahead and stand on time for the next tick. No timer is lost or doubled.
pub begin_tick-Begun :
    (base : Base)
    → base.jiffies + 1 < 2 ^ 62
    → All (Fits (OnTime base.jiffies)) base.links
    → ((begin_tick base).jiffies ≡ base.jiffies + 1)
      × All (Fits (Begun base.jiffies)) (begin_tick base).links
      × ((p : Timer → Bool) → count p (begin_tick base).links ≡ count p base.links)
unfolding begin_tick
begin_tick-Begun base small a =
    let j : ℕ = base.jiffies in
    let h = tv1 (j % 2 ^ 10) in
    let links = (cascade2 j base).links in
    let w = cascade2-Wheel j (omega arith) base (refl, a) in
    (
      omega arith,
      All-append (Fits (Begun j)) (links_off h links) _
          (links_off-All (AllPassed j) (Begun j) h (λ k e q v. inr (off_tick j k e q v)) links w.1)
          (work-Begun j (timers_on h links)
            (timers_on-All (AllPassed j) (Begun j) h (λ e. e ≤ j) (on_tick j) links w.1)),
      λ p. omega (
        arith,
        count-append p (links_off h links)
            (map (λ t. record { head = work_list; timer = t }) (timers_on h links)),
        count-map p (timers_on h links),
        count-split p h links,
        count-cascade2 p j base,
      ),
    )
