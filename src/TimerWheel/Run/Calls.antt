-- ===== src/TimerWheel/Run/Calls.antt =====
-- The calls on the wheel in the loop of a tick: they leave it in order and the work list no longer.
use smartdns_ui.Prelude.{
  ℕ, ◌^◌, ◌≤◌, ◌<◌, ◌≡◌, refl, ap, sym, ◌∙◌, ◌⊎◌, inl, inr, ok, none, arith, ◌==◌, Bool, true,
  false, ◌&&◌, not, Bool-cases, List, [], ◌∷◌, ◌++◌, length, All, All-append,
}
use smartdns_ui.TimerWheel.Wheel.{
  Timer, Head, tv1, tv2, tv3, tv4, tv5, work_list, same_head, Link, Base, add_timer, pick_vec,
  find_timer, unlink, detach_timer, timer_pending, mod_timer, due_in, tw_add_timer, tw_del_timer,
  tw_mod_timer,
}
use smartdns_ui.TimerWheel.Wheel.Slots.{OnTime, pick_vec-Stands}
use smartdns_ui.TimerWheel.Run.{timers_on, Call, add, del, mod_pending, modify, make_call}
use smartdns_ui.TimerWheel.Run.Lists.{Fits}

unlink-All : (P : Link → Type 0) (id : ℕ) (ls : List Link) → All P ls → All P (unlink id ls)
unfolding unlink
unlink-All P id [] a = tt
unlink-All P id (l ∷ ls) a = elim (Bool-cases (l.timer.id == id)) [
  | inl e ↦ rw e (unlink-All P id ls a.1)
  | inr e ↦ rw e (a.0, unlink-All P id ls a.1)
]

-- A linked timer whose function is set
abbrev pub HasFunction : Link → Type 0
HasFunction l = l.timer.function ≡ true

-- A timer that was detached is not linked.
pub find_timer-unlink : (id : ℕ) (ls : List Link) → find_timer id (unlink id ls) ≡ none
unfolding find_timer unlink
find_timer-unlink id [] = refl
find_timer-unlink id (l ∷ ls) = elim (Bool-cases (l.timer.id == id)) [
  | inl e ↦ rw e (find_timer-unlink id ls)
  | inr e ↦ rw (e, e) (find_timer-unlink id ls)
]

module _ (h : Head) where
  -- The first timer of a list has what all linked timers have.
  pub first_function :
      (t : Timer) (ts : List Timer) (ls : List Link)
      → timers_on h ls ≡ t ∷ ts
      → All HasFunction ls
      → t.function ≡ true
  unfolding timers_on
  first_function t ts [] e a = absurd cc
  first_function t ts (l ∷ ls) e a = elim (Bool-cases (same_head l.head h)) [
    | inl q ↦
        let e' : l.timer ∷ timers_on h ls ≡ t ∷ ts = rw q at e in
        let same : l.timer ≡ t = cc in sym (ap (λ x. x.function) same) ∙ a.0
    | inr q ↦ first_function t ts ls (rw q at e) a.1
  ]

  length-unlink :
      (id : ℕ) (ls : List Link) → length (timers_on h (unlink id ls)) ≤ length (timers_on h ls)
  unfolding timers_on unlink
  length-unlink id [] = omega arith
  length-unlink id (l ∷ ls) = elim (Bool-cases (l.timer.id == id)) [
    | inl e ↦ elim (Bool-cases (same_head l.head h)) [
      | inl q ↦ rw (e, q) (omega (arith, length-unlink id ls))
      | inr q ↦ rw (e, q) (length-unlink id ls)
    ]
    | inr e ↦ elim (Bool-cases (same_head l.head h)) [
      | inl q ↦ rw (e, q) (omega (arith, length-unlink id ls))
      | inr q ↦ rw (e, q) (length-unlink id ls)
    ]
  ]

  -- Unlinking the first timer of a list shortens it.
  pub length-unlink_first :
      (t : Timer) (ts : List Timer) (ls : List Link)
      → timers_on h ls ≡ t ∷ ts
      → length (timers_on h (unlink t.id ls)) ≤ length ts
  unfolding timers_on unlink
  length-unlink_first t ts [] e = cc
  length-unlink_first t ts (l ∷ ls) e = elim (Bool-cases (same_head l.head h)) [
    | inl q ↦
        let e' : l.timer ∷ timers_on h ls ≡ t ∷ ts = rw q at e in
        let same : l.timer ≡ t = cc in
        let rest : timers_on h ls ≡ ts = cc in
        let r : (l.timer.id == t.id) ≡ true = ground (arith, ap (λ x. x.id) same) in
        rw r (omega (arith, length-unlink t.id ls, ap length rest))
    | inr q ↦ elim (Bool-cases (l.timer.id == t.id)) [
      | inl r ↦ rw r (length-unlink_first t ts ls (rw q at e))
      | inr r ↦ rw (r, q) (length-unlink_first t ts ls (rw q at e))
    ]
  ]

  timers_on-append :
      (ls : List Link) (l : Link)
      → same_head l.head h ≡ false
      → timers_on h (ls ++ l ∷ []) ≡ timers_on h ls
  unfolding timers_on
  timers_on-append [] l e = rw e refl
  timers_on-append (k ∷ ls) l e = elim (Bool-cases (same_head k.head h)) [
    | inl q ↦ rw q (ap (λ t. k.timer ∷ t) (timers_on-append ls l e))
    | inr q ↦ rw q (timers_on-append ls l e)
  ]

-- What a call is given is short enough for the jiffies not to wrap around.
abbrev pub IsShort : Call → Type 0
IsShort (add t) = t.expires < 2 ^ 62
IsShort (del id) = Unit {0}
IsShort (mod_pending t n) = n < 2 ^ 62
IsShort (modify t n) = n < 2 ^ 62

-- What the caller owes: no timer is added that is linked, and none is linked without a function.
abbrev pub IsLegal : Base → Call → Type 0
IsLegal base (add t) = t.function ≡ true → timer_pending base t.id ≡ false
IsLegal base (del id) = Unit {0}
IsLegal base (mod_pending t n) = t.function ≡ true
IsLegal base (modify t n) = t.function ≡ true

-- The calls are short, and each is legal in the wheel that the ones before it leave.
abbrev pub AreAllowed : Base → List Call → Type 0
AreAllowed base [] = Unit {0}
AreAllowed base (c ∷ cs) =
    IsShort c
    × IsLegal base c
    × ((after : Base) → make_call base c ≡ ok after → AreAllowed after cs)

-- In the loop of a tick, `now` being the jiffies by then: on the work list with the deadline over,
-- or standing on time.
abbrev pub Held : ℕ → Head → ℕ → Type 0
Held now k e = ((k ≡ work_list) × (e < now)) ⊎ OnTime now k e

pub work_head : (k : Head) → k ≡ work_list → same_head k work_list ≡ true
unfolding same_head
work_head k p = rw p refl

pub OnTime-off : (now : ℕ) (k : Head) (e : ℕ) → OnTime now k e → same_head k work_list ≡ false
unfolding same_head
OnTime-off now (tv1 i) e w = refl
OnTime-off now (tv2 i) e w = refl
OnTime-off now (tv3 i) e w = refl
OnTime-off now (tv4 i) e w = refl
OnTime-off now (tv5 i) e w = refl
OnTime-off now work_list e w = elim w [ ]

-- The wheel in the loop of a tick.
abbrev pub Working : ℕ → Base → Type 0
Working now base =
    (base.jiffies ≡ now) × All (Fits (Held now)) base.links × All HasFunction base.links

-- A call leaves the wheel in order and puts nothing on the work list.
abbrev pub Called : ℕ → Base → Base → Type 0
Called now before after =
    Working now after
    × (length (timers_on work_list after.links) ≤ length (timers_on work_list before.links))

module _ (now : ℕ) (begun : 0 < now) (small : now < 2 ^ 62) where
  pub Called-none : (base : Base) → Working now base → Called now base base
  Called-none base w = (w, omega arith)

  pub detach_timer-Called :
      (base : Base) (id : ℕ) → Working now base → Called now base (detach_timer base id)
  detach_timer-Called base id w = (
    (w.0, unlink-All (Fits (Held now)) id base.links w.1, unlink-All HasFunction id base.links w.2),
    length-unlink work_list id base.links,
  )

  add_timer-Called :
      (base : Base) (t : Timer)
      → t.expires < 2 ^ 63
      → t.function ≡ true
      → Working now base
      → Called now base (add_timer base t)
  add_timer-Called base t short f w =
      let s : OnTime now (pick_vec base.jiffies t.expires) t.expires = rw w.0 (
        pick_vec-Stands now t.expires small short now now now now (omega arith) (omega arith)
          (omega arith) (omega arith)) in
      (
        (
          w.0,
          All-append (Fits (Held now)) base.links _ w.1 ((inr s, short), tt),
          All-append HasFunction base.links _ w.2 (f, tt),
        ),
        omega (
          arith,
          ap length (
              timers_on-append work_list base.links
                (record { head = pick_vec base.jiffies t.expires; timer = t })
                (OnTime-off now _ t.expires s)),
        ),
      )

  pub Called-after :
      (a b c : Base) → Called now a b → (Working now b → Called now b c) → Called now a c
  Called-after a b c k f = let r = f k.0 in (r.0, omega (arith, k.1, r.1))

  due_in-short :
      (base : Base) (t : Timer) (n : ℕ)
      → n < 2 ^ 62
      → Working now base
      → (due_in base t n).expires < 2 ^ 63
  due_in-short base t n short w = omega (arith, w.0)

  mod_timer-Called :
      (base : Base) (t : Timer) (pending_only : Bool)
      → t.expires < 2 ^ 63
      → t.function ≡ true
      → Working now base
      → Called now base (mod_timer base t pending_only).1
  mod_timer-Called base t pending_only short f w =
      elim (Bool-cases (not (timer_pending base t.id) && pending_only)) [
        | inl e ↦ rw e (Called-none base w)
        | inr e ↦ rw e (
            Called-after base (detach_timer base t.id) _ (detach_timer-Called base t.id w)
              (add_timer-Called (detach_timer base t.id) t short f))
      ]

  tw_add_timer-Called :
      (base : Base) (t : Timer)
      → t.expires < 2 ^ 62
      → (t.function ≡ true → timer_pending base t.id ≡ false)
      → Working now base
      → (after : Base) × (tw_add_timer base t ≡ ok after) × Called now base after
  tw_add_timer-Called base t short unlinked w = elim (Bool-cases t.function) [
    | inr f ↦ (base, rw f refl, Called-none base w)
    | inl f ↦ (
      add_timer base (due_in base t t.expires),
      rw (f, unlinked f) refl,
      add_timer-Called base (due_in base t t.expires) (due_in-short base t t.expires short w) f w,
    )
  ]

  tw_del_timer-Called :
      (base : Base) (id : ℕ) → Working now base → Called now base (tw_del_timer base id).1
  tw_del_timer-Called base id w = elim (Bool-cases (timer_pending base id)) [
    | inl e ↦ rw e (detach_timer-Called base id w)
    | inr e ↦ rw e (Called-none base w)
  ]

  tw_mod_timer-Called :
      (base : Base) (t : Timer) (n : ℕ)
      → n < 2 ^ 62
      → t.function ≡ true
      → Working now base
      → Called now base (tw_mod_timer base t n).1.1
  tw_mod_timer-Called base t n short f w =
      elim (Bool-cases (timer_pending base t.id && (t.expires == n))) [
        | inl e ↦ rw e (Called-none base w)
        | inr e ↦
            rw e (mod_timer-Called base (due_in base t n) false (due_in-short base t n short w) f w)
      ]

  pub make_call-Called :
      (base : Base) (c : Call)
      → IsShort c
      → IsLegal base c
      → Working now base
      → (after : Base) × (make_call base c ≡ ok after) × Called now base after
  unfolding make_call
  make_call-Called base (add t) s l w = tw_add_timer-Called base t s l w
  make_call-Called base (del id) s l w = (_, refl, tw_del_timer-Called base id w)
  make_call-Called base (mod_pending t n) s l w =
      (_, refl, mod_timer-Called base (due_in base t n) true (due_in-short base t n s w) l w)
  make_call-Called base (modify t n) s l w = (_, refl, tw_mod_timer-Called base t n s l w)
