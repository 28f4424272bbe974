-- ===== src/TimerWheel/Run/Lists.antt =====
-- The links of a list and off it, and one cascade, by claims on the links.
use smartdns_ui.Prelude.{
  ℕ, ◌^◌, ◌≤◌, ◌<◌, ◌≡◌, inl, inr, Bool-cases, true, false, List, [], ◌∷◌, All, All-append,
}
use smartdns_ui.TimerWheel.Wheel.{Timer, Head, same_head, Link, Base, pick_vec, add_timer}
use smartdns_ui.TimerWheel.Run.{timers_on, links_off, add_timers, cascade}

-- A link by a claim on its head and its deadline, which is no more than 63 bits.
abbrev pub Fits : (Head → ℕ → Type 0) → Link → Type 0
Fits P l = P l.head l.timer.expires × (l.timer.expires < 2 ^ 63)

module _ (P Q : Head → ℕ → Type 0) (h : Head) where
  pub links_off-All :
      ((k : Head) (e : ℕ) → same_head k h ≡ false → P k e → Q k e)
      → (ls : List Link) → All (Fits P) ls
      → All (Fits Q) (links_off h ls)
  unfolding links_off
  links_off-All f [] a = tt
  links_off-All f (l ∷ ls) a = elim (Bool-cases (same_head l.head h)) [
    | inl e ↦ rw e (links_off-All f ls a.1)
    | inr e ↦ rw e ((f l.head l.timer.expires e a.0.0, a.0.1), links_off-All f ls a.1)
  ]

  pub timers_on-All :
      (R : ℕ → Type 0)
      → ((k : Head) (e : ℕ) → same_head k h ≡ true → P k e → R e)
      → (ls : List Link) → All (Fits P) ls
      → All (λ t. R t.expires × (t.expires < 2 ^ 63)) (timers_on h ls)
  unfolding timers_on
  timers_on-All R f [] a = tt
  timers_on-All R f (l ∷ ls) a = elim (Bool-cases (same_head l.head h)) [
    | inl e ↦ rw e ((f l.head l.timer.expires e a.0.0, a.0.1), timers_on-All R f ls a.1)
    | inr e ↦ rw e (timers_on-All R f ls a.1)
  ]

pub add_timers-All :
    (Q : Head → ℕ → Type 0) (j : ℕ)
    → ((e : ℕ) → j ≤ e → e < 2 ^ 63 → Q (pick_vec j e) e)
    → (ts : List Timer) (base : Base) → base.jiffies ≡ j
    → All (λ t. (j ≤ t.expires) × (t.expires < 2 ^ 63)) ts
    → All (Fits Q) base.links
    → ((add_timers base ts).jiffies ≡ j) × All (Fits Q) (add_timers base ts).links
unfolding add_timers
add_timers-All Q j f [] base e a b = (e, b)
add_timers-All Q j f (t ∷ ts) base e a b =
    add_timers-All Q j f ts (add_timer base t) e a.1
      (All-append (Fits Q) base.links _ b ((rw e (f t.expires a.0.0 a.0.1), a.0.1), tt))

pub cascade-All :
    (P Q : Head → ℕ → Type 0) (h : Head) (j : ℕ)
    → ((k : Head) (e : ℕ) → same_head k h ≡ false → P k e → Q k e)
    → ((k : Head) (e : ℕ) → same_head k h ≡ true → P k e → j ≤ e)
    → ((e : ℕ) → j ≤ e → e < 2 ^ 63 → Q (pick_vec j e) e)
    → (base : Base) → base.jiffies ≡ j
    → All (Fits P) base.links
    → ((cascade base h).jiffies ≡ j) × All (Fits Q) (cascade base h).links
cascade-All P Q h j stay late pick base e a =
    add_timers-All Q j pick (timers_on h base.links)
      (record base { links = links_off h base.links }) e
      (timers_on-All P Q h (λ e. j ≤ e) late base.links a) (links_off-All P Q h stay base.links a)
