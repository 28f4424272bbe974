-- ===== src/TimerWheel/Run/Cascade.antt =====
-- The cascades of a tick: what the coarse wheels hold after them.
use smartdns_ui.Prelude.{
  ℕ, ◌+◌, ◌*◌, ◌%◌, ◌^◌, ◌<◌, ◌≡◌, ◌≢◌, refl, ◌⊎◌, inl, inr, arith, ◌==◌, Bool-cases, List, [], ◌∷◌,
  All,
}
use smartdns_ui.TimerWheel.Wheel.{Head, tv1, tv2, tv3, tv4, tv5, work_list, Link, Base}
use mathlib.Core.Path.{subst}
use smartdns_ui.TimerWheel.Wheel.Slots.{InBlock, Stands, OnTime, IsNext, pick_vec-Stands}
use smartdns_ui.TimerWheel.Run.{
  cascade, cascade2, cascade3, cascade4, cascade5, index0, index1, index2, index3,
}
use smartdns_ui.TimerWheel.Run.Lists.{Fits, cascade-All}
use smartdns_ui.TimerWheel.Run.Passes.{InBlock-next, Passes, passes2, passes3, passes4, passes5}

-- A coarse wheel is done with the tick of `j` when it has cascaded, or has no slot that starts.
abbrev IsPassed : ℕ → ℕ → ℕ → Type 0
IsPassed j size n = (n ≡ j + 1) ⊎ ((n ≡ j) × (j % size ≢ 0))

abbrev pub AllPassed : ℕ → Head → ℕ → Type 0
AllPassed j = Stands j (j + 1) (j + 1) (j + 1) (j + 1)

module _ (j : ℕ) where
  InBlock-passed :
      (size n i e : ℕ)
      → ((b : ℕ) → b * size ≡ j → j % size ≡ 0)
      → IsPassed j size n
      → InBlock size n i e
      → InBlock size (j + 1) i e
  InBlock-passed size n i e m (inl p) w = subst (λ t. InBlock size t i e) p w
  InBlock-passed size n i e m (inr (p, q)) w =
      InBlock-next size j i e (subst (λ t. InBlock size t i e) p w) (λ r. q (m _ r))

  settle :
      (n2 n3 n4 n5 : ℕ)
      → IsPassed j (2 ^ 10) n2
      → IsPassed j (2 ^ 16) n3
      → IsPassed j (2 ^ 22) n4
      → IsPassed j (2 ^ 28) n5
      → (k : Head) (e : ℕ) → Stands j n2 n3 n4 n5 k e
      → AllPassed j k e
  settle n2 n3 n4 n5 p2 p3 p4 p5 (tv1 i) e w = w
  settle n2 n3 n4 n5 p2 p3 p4 p5 (tv2 i) e w =
      InBlock-passed (2 ^ 10) n2 i e (λ b q. omega arith) p2 w
  settle n2 n3 n4 n5 p2 p3 p4 p5 (tv3 i) e w =
      InBlock-passed (2 ^ 16) n3 i e (λ b q. omega arith) p3 w
  settle n2 n3 n4 n5 p2 p3 p4 p5 (tv4 i) e w =
      InBlock-passed (2 ^ 22) n4 i e (λ b q. omega arith) p4 w
  settle n2 n3 n4 n5 p2 p3 p4 p5 (tv5 i) e w =
      InBlock-passed (2 ^ 28) n5 i e (λ b q. omega arith) p5 w
  settle n2 n3 n4 n5 p2 p3 p4 p5 work_list e w = w

pub All-Fits_mono :
    (P Q : Head → ℕ → Type 0)
    → ((k : Head) (e : ℕ) → P k e → Q k e)
    → (ls : List Link) → All (Fits P) ls
    → All (Fits Q) ls
All-Fits_mono P Q f [] a = tt
All-Fits_mono P Q f (l ∷ ls) a = ((f _ _ a.0.0, a.0.1), All-Fits_mono P Q f ls a.1)

module _ (j : ℕ) (small : j < 2 ^ 62) where
  -- What holds of the wheel at `j` with these coarse wheels done.
  abbrev Wheel : (Head → ℕ → Type 0) → Base → Type 0
  Wheel P base = (base.jiffies ≡ j) × All (Fits P) base.links

  settle-Wheel :
      (n2 n3 n4 n5 : ℕ)
      → IsPassed j (2 ^ 10) n2
      → IsPassed j (2 ^ 16) n3
      → IsPassed j (2 ^ 22) n4
      → IsPassed j (2 ^ 28) n5
      → (base : Base) → Wheel (Stands j n2 n3 n4 n5) base
      → Wheel (AllPassed j) base
  settle-Wheel n2 n3 n4 n5 p2 p3 p4 p5 base w =
      (w.0, All-Fits_mono _ _ (settle j n2 n3 n4 n5 p2 p3 p4 p5) base.links w.1)

  cascade-Wheel :
      (P : Head → ℕ → Type 0) (n2 n3 n4 n5 : ℕ) (h : Head)
      → IsNext j n2
      → IsNext j n3
      → IsNext j n4
      → IsNext j n5
      → Passes j P (Stands j n2 n3 n4 n5) h
      → (base : Base) → Wheel P base
      → Wheel (Stands j n2 n3 n4 n5) (cascade base h)
  cascade-Wheel P n2 n3 n4 n5 h i2 i3 i4 i5 passes base w =
      cascade-All P (Stands j n2 n3 n4 n5) h j (λ k e no p. (passes k e p).1 no)
        (λ k e yes p. (passes k e p).0 yes)
        (λ e lo hi. pick_vec-Stands j e small hi n2 n3 n4 n5 i2 i3 i4 i5) base w.0 w.1

  here : IsNext j j
  here = omega arith

  next : IsNext j (j + 1)
  next = omega arith

  cascade5-Wheel :
      (base : Base)
      → j % 2 ^ 22 ≡ 0
      → Wheel (Stands j (j + 1) (j + 1) (j + 1) j) base
      → Wheel (AllPassed j) (cascade5 j base)
  cascade5-Wheel base whole w = elim (Bool-cases (index2 j == 0)) [
    | inl e ↦ rw e (
        cascade-Wheel _ _ _ _ _ (tv5 (index3 j)) next next next next (passes5 j (ground arith)) base
          w)
    | inr e ↦ rw e (
        settle-Wheel (j + 1) (j + 1) (j + 1) j (inl refl) (inl refl) (inl refl)
          (inr (refl, λ q. ground arith)) base w)
  ]

  cascade4-Wheel :
      (base : Base)
      → j % 2 ^ 16 ≡ 0
      → Wheel (Stands j (j + 1) (j + 1) j j) base
      → Wheel (AllPassed j) (cascade4 j base)
  cascade4-Wheel base whole w = elim (Bool-cases (index1 j == 0)) [
    | inl e ↦ rw e (
        cascade5-Wheel (cascade base (tv4 (index2 j))) (ground arith) (
          cascade-Wheel _ _ _ _ _ (tv4 (index2 j)) next next next here (passes4 j (ground arith))
            base w))
    | inr e ↦ rw e (
        settle-Wheel (j + 1) (j + 1) j j (inl refl) (inl refl) (inr (refl, λ q. ground arith))
          (inr (refl, λ q. ground arith)) base w)
  ]

  cascade3-Wheel :
      (base : Base)
      → j % 2 ^ 10 ≡ 0
      → Wheel (Stands j (j + 1) j j j) base
      → Wheel (AllPassed j) (cascade3 j base)
  cascade3-Wheel base whole w = elim (Bool-cases (index0 j == 0)) [
    | inl e ↦ rw e (
        cascade4-Wheel (cascade base (tv3 (index1 j))) (ground arith) (
          cascade-Wheel _ _ _ _ _ (tv3 (index1 j)) next next here here (passes3 j (ground arith))
            base w))
    | inr e ↦ rw e (
        settle-Wheel (j + 1) j j j (inl refl) (inr (refl, λ q. ground arith))
          (inr (refl, λ q. ground arith)) (inr (refl, λ q. ground arith)) base w)
  ]

  -- The cascades of a tick find every coarse timer in time.
  pub cascade2-Wheel : (base : Base) → Wheel (OnTime j) base → Wheel (AllPassed j) (cascade2 j base)
  cascade2-Wheel base w = elim (Bool-cases (j % 2 ^ 10 == 0)) [
    | inl e ↦ rw e (
        cascade3-Wheel (cascade base (tv2 (index0 j))) (ground arith) (
          cascade-Wheel _ _ _ _ _ (tv2 (index0 j)) next here here here (passes2 j (ground arith))
            base w))
    | inr e ↦ rw e (
        settle-Wheel j j j j (inr (refl, λ q. ground arith)) (inr (refl, λ q. ground arith))
          (inr (refl, λ q. ground arith)) (inr (refl, λ q. ground arith)) base w)
  ]
