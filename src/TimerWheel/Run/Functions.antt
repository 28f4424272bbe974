-- ===== src/TimerWheel/Run/Functions.antt =====
-- A whole tick with the functions of its timers, which make calls on the wheel.
use smartdns_ui.Prelude.{
  ℕ, zero, suc, ◌+◌, ◌^◌, ◌≤◌, ◌<◌, ◌≡◌, refl, ap, sym, fault, if◌then◌else◌, ◌∙◌, inl, inr, arith,
  Bool, true, false, not, Option, none, some, Bool-cases, List, [], ◌∷◌, length, All, ok,
}
use mathlib.Core.Path.{subst}
use mathlib.Core.Bool.{true≢false}
use smartdns_ui.TimerWheel.Wheel.{
  Timer, Head, work_list, same_head, Link, Base, detach_timer, timer_pending,
}
use smartdns_ui.TimerWheel.Wheel.Slots.{OnTime}
use smartdns_ui.TimerWheel.Run.{
  timers_on, begin_tick, Call, make_calls, call_function, run_work, run_timers,
}
use smartdns_ui.TimerWheel.Run.Lists.{Fits, timers_on-All}
use smartdns_ui.TimerWheel.Run.Cascade.{All-Fits_mono}
use smartdns_ui.TimerWheel.Run.Due.{Begun, count, begin_tick-Begun}
use smartdns_ui.TimerWheel.Run.Calls.{
  HasFunction, find_timer-unlink, first_function, length-unlink_first, Held, OnTime-off, work_head,
  AreAllowed, Working, Called, make_call-Called, Called-none, detach_timer-Called,
}

Begun-Held : (j : ℕ) (k : Head) (e : ℕ) → Begun j k e → Held (j + 1) k e
Begun-Held j k e (inl (p, q)) = inl (p, omega arith)
Begun-Held j k e (inr (p, q)) = inr p

All-le : (j : ℕ) (ts : List Timer) → All (λ t. t.expires < j + 1) ts → All (λ t. t.expires ≤ j) ts
All-le j [] a = tt
All-le j (t ∷ ts) a = (omega (arith, a.0), All-le j ts a.1)

-- The functions of timers that are not linked any more make only calls that are short and legal.
abbrev pub MakesAllowed : (Base → Timer → ℕ → List Call) → Type 0
MakesAllowed function =
    (base : Base) (t : Timer) (call_time : ℕ)
    → t.function ≡ true
    → timer_pending base t.id ≡ false
    → AreAllowed base (function base t call_time)

detached : (id : ℕ) (base : Base) → timer_pending (detach_timer base id) id ≡ false
detached id base =
    ap (λ (o : Option Timer). elim o as (λ o. Bool) [ none ↦ false | some t ↦ true ])
      (find_timer-unlink id base.links)

drop_zero : (b : Bool) (n : ℕ) → b ≡ true → (if not b then 1 else 0) + n ≡ 0 → n ≡ 0
drop_zero b n f e = omega arith

no_missing : (b : Bool) (n : ℕ) → b ≡ false → (if not b then 1 else 0) + n ≡ 0 → ⊥
no_missing true n f e = absurd (true≢false f)
no_missing false n f e = omega arith

when_true {ℓ} : {A : Type ℓ} (b : Bool) (x y z : A) → b ≡ true → x ≡ z → (if b then x else y) ≡ z
when_true true x y z f e = e
when_true false x y z f e = absurd (true≢false (sym f))

module _ (now : ℕ) (begun : 0 < now) (small : now < 2 ^ 62) where
  make_calls-Called :
      (cs : List Call) (base : Base)
      → AreAllowed base cs
      → Working now base
      → (after : Base) × (make_calls base cs ≡ ok after) × Called now base after
  unfolding make_calls
  make_calls-Called [] base s w = (base, refl, Called-none now begun small base w)
  make_calls-Called (c ∷ cs) base (s, l, next) w =
      let (mid, e, k) = make_call-Called now begun small base c s l w in
      let (after, e', k') = make_calls-Called cs mid (next mid e) k.0 in
      (after, rw (e, e') refl, (k'.0, omega (arith, k.1, k'.1)))

  -- With the work list empty all timers stand on time.
  no_work :
      (ls : List Link)
      → timers_on work_list ls ≡ []
      → All (Fits (Held now)) ls
      → All (Fits (OnTime now)) ls
  unfolding timers_on
  no_work [] e a = tt
  no_work (l ∷ ls) e a = elim (Bool-cases (same_head l.head work_list)) [
    | inl q ↦ absurd (cc (rw q at e))
    | inr q ↦ (
      elim a.0.0 [ inl (p, late) ↦ absurd (cc (q, work_head l.head p)) | inr o ↦ (o, a.0.1) ],
      no_work ls (rw q at e) a.1,
    )
  ]

  late_work : (k : Head) (e : ℕ) → same_head k work_list ≡ true → Held now k e → e < now
  late_work k e q (inl (p, late)) = late
  late_work k e q (inr o) = absurd (cc (q, OnTime-off now k e o))

  first_late :
      (ls : List Link) (t : Timer) (ts : List Timer)
      → timers_on work_list ls ≡ t ∷ ts
      → All (Fits (Held now)) ls
      → t.expires < now
  first_late ls t ts e a =
      let late = timers_on-All (Held now) (Held now) work_list (λ e. e < now) late_work ls a in
      (subst (All (λ x. (x.expires < now) × (x.expires < 2 ^ 63))) e late).0.0

  module _ (function : Base → Timer → ℕ → List Call) (allowed : MakesAllowed function) where
    abbrev Done : List Timer × Base → Type 0
    Done r =
        (r.1.jiffies ≡ now)
        × All (Fits (OnTime now)) r.1.links
        × All HasFunction r.1.links
        × All (λ t. t.expires < now) r.0

    call_function-Called :
        (call_time : ℕ) (base : Base) (t : Timer) (ts : List Timer)
        → timers_on work_list base.links ≡ t ∷ ts
        → Working now base
        → (after : Base) × (call_function function call_time (detach_timer base t.id) t ≡ ok after)
          × Called now (detach_timer base t.id) after
    unfolding call_function
    call_function-Called call_time base t ts e w =
        let f : t.function ≡ true = first_function work_list t ts base.links e w.2 in
        let base' : Base = detach_timer base t.id in
        let off : timer_pending base' t.id ≡ false = detached t.id base in
        let (after, q, k) =
          make_calls-Called (function base' t call_time) base' (allowed base' t call_time f off)
            (detach_timer-Called now begun small base t.id w).0 in
        (after, when_true t.function _ fault (ok after) f q, k)

    run_work-Done :
        (fuel call_time : ℕ) (base : Base) (work : List Timer)
        → timers_on work_list base.links ≡ work
        → length work ≤ fuel
        → Working now base
        → (r : List Timer × Base) × (run_work function fuel call_time base work ≡ ok r) × Done r
    unfolding run_work
    run_work-Done fuel call_time base [] e l w =
        (([], base), refl, (w.0, no_work base.links e w.1, w.2, tt))
    run_work-Done zero call_time base (t ∷ ts) e l w = absurd (omega arith)
    run_work-Done (suc fuel) call_time base (t ∷ ts) e l w =
        let (after, q, c) = call_function-Called call_time base t ts e w in
        let (r, e', done) =
          run_work-Done fuel call_time after (timers_on work_list after.links) refl
            (omega (arith, c.1, length-unlink_first work_list t ts base.links e)) c.0 in
        (
          (t ∷ r.0, r.1),
          rw (q, e') refl,
          (done.0, done.1, done.2, (first_late base.links t ts e w.1, done.3)),
        )

module _ (ls ks : List Link)
    (same : count (λ t. not t.function) ks ≡ count (λ t. not t.function) ls) where
  none_missing : (ls : List Link) → All HasFunction ls → count (λ t. not t.function) ls ≡ 0
  none_missing [] a = refl
  none_missing (l ∷ ls) a = rw a.0 (omega (arith, none_missing ls a.1))

  functions_set : (ks : List Link) → count (λ t. not t.function) ks ≡ 0 → All HasFunction ks
  functions_set [] e = tt
  functions_set (k ∷ ks) e = elim (Bool-cases k.timer.function) [
    | inl f ↦ (f, functions_set ks (omega (arith, drop_zero k.timer.function _ f e)))
    | inr f ↦ absurd (no_missing k.timer.function _ f e)
  ]

  same_functions : All HasFunction ls → All HasFunction ks
  same_functions a = functions_set ks (same ∙ none_missing ls a)

-- On a wheel whose timers all stand on time and have a function, and for functions that make only
-- legal calls on it, of no more than 62 bits of ticks: `run_timers` ends without a fault. A call is
-- legal that neither adds a timer that is linked nor links one without a function, and a function
-- may assume that its own timer is not linked. The timers whose functions it called had deadlines
-- that were over by the tick. Afterwards the jiffies are one on and all timers, those that the
-- functions added, moved or left among them, have a function and stand on time for the next tick.
pub run_timers-OnTime :
    (function : Base → Timer → ℕ → List Call) (base : Base)
    → MakesAllowed function
    → base.jiffies + 1 < 2 ^ 62
    → All (Fits (OnTime base.jiffies)) base.links
    → All HasFunction base.links
    → (fired : List Timer) × (after : Base) × (run_timers function base ≡ ok (fired, after))
      × (after.jiffies ≡ base.jiffies + 1)
      × All (Fits (OnTime (base.jiffies + 1))) after.links
      × All HasFunction after.links
      × All (λ t. t.expires ≤ base.jiffies) fired
unfolding run_timers
run_timers-OnTime function base allowed small a f =
    let j : ℕ = base.jiffies in
    let (e, held, kept) = begin_tick-Begun base small a in
    let begun = begin_tick base in
    let functions : All HasFunction begun.links =
      same_functions base.links begun.links (kept (λ t. not t.function)) f in
    let (r, q, done) =
      run_work-Done (j + 1) (omega arith) small function allowed
        (length (timers_on work_list begun.links)) j begun (timers_on work_list begun.links) refl
        (omega arith)
        (e, All-Fits_mono (Begun j) (Held (j + 1)) (Begun-Held j) begun.links held, functions) in
    (r.0, r.1, q, done.0, done.1, done.2, All-le j r.0 done.3)
