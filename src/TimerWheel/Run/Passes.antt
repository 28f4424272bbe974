-- ===== src/TimerWheel/Run/Passes.antt =====
-- What one cascade of a coarse wheel does to the links of the wheel.
use smartdns_ui.Prelude.{ℕ, ◌+◌, ◌*◌, ◌%◌, ◌^◌, ◌≤◌, ◌≡◌, ◌≢◌, arith, true, false}
use smartdns_ui.TimerWheel.Wheel.{Head, tv1, tv2, tv3, tv4, tv5, work_list, same_head}
use smartdns_ui.TimerWheel.Wheel.Slots.{InBlock, Stands}
use smartdns_ui.TimerWheel.Run.{index0, index1, index2, index3}

pub InBlock-next : (k j i e : ℕ) (w : InBlock k j i e) → w.b * k ≢ j → InBlock k (j + 1) i e
InBlock-next k j i e w ne = record {
  b = w.b;
  slot = w.slot;
  ahead = omega (arith, w.ahead);
  turn = omega (arith, w.turn);
  early = w.early;
}

-- What a link of a list that holds `P` does when the list of `h` cascades at `j`: on it, its
-- deadline is not over; off it, `Q` holds.
abbrev pub Passes : ℕ → (Head → ℕ → Type 0) → (Head → ℕ → Type 0) → Head → Type 0
Passes j P Q h =
    (k : Head) (e : ℕ) → P k e → (same_head k h ≡ true → j ≤ e) × (same_head k h ≡ false → Q k e)

module _ (j : ℕ) where
  pub passes2 :
      j % 2 ^ 10 ≡ 0 → Passes j (Stands j j j j j) (Stands j (j + 1) j j j) (tv2 (index0 j))
  unfolding same_head
  passes2 whole (tv1 i) e w = (λ q. ground arith, λ q. w)
  passes2 whole (tv2 i) e w = (
    λ q. ground (arith, w.slot, w.ahead, w.turn, w.early),
    λ q. InBlock-next (2 ^ 10) j i e w (λ r. ground (arith, w.slot)),
  )
  passes2 whole (tv3 i) e w = (λ q. ground arith, λ q. w)
  passes2 whole (tv4 i) e w = (λ q. ground arith, λ q. w)
  passes2 whole (tv5 i) e w = (λ q. ground arith, λ q. w)
  passes2 whole work_list e w = (λ q. ground arith, λ q. w)

  pub passes3 :
      j % 2 ^ 16 ≡ 0
      → Passes j (Stands j (j + 1) j j j) (Stands j (j + 1) (j + 1) j j) (tv3 (index1 j))
  unfolding same_head
  passes3 whole (tv1 i) e w = (λ q. ground arith, λ q. w)
  passes3 whole (tv2 i) e w = (λ q. ground arith, λ q. w)
  passes3 whole (tv3 i) e w = (
    λ q. ground (arith, w.slot, w.ahead, w.turn, w.early),
    λ q. InBlock-next (2 ^ 16) j i e w (λ r. ground (arith, w.slot)),
  )
  passes3 whole (tv4 i) e w = (λ q. ground arith, λ q. w)
  passes3 whole (tv5 i) e w = (λ q. ground arith, λ q. w)
  passes3 whole work_list e w = (λ q. ground arith, λ q. w)

  pub passes4 :
      j % 2 ^ 22 ≡ 0
      → Passes j
          (Stands j (j + 1) (j + 1) j j)
          (Stands j (j + 1) (j + 1) (j + 1) j)
          (tv4 (index2 j))
  unfolding same_head
  passes4 whole (tv1 i) e w = (λ q. ground arith, λ q. w)
  passes4 whole (tv2 i) e w = (λ q. ground arith, λ q. w)
  passes4 whole (tv3 i) e w = (λ q. ground arith, λ q. w)
  passes4 whole (tv4 i) e w = (
    λ q. ground (arith, w.slot, w.ahead, w.turn, w.early),
    λ q. InBlock-next (2 ^ 22) j i e w (λ r. ground (arith, w.slot)),
  )
  passes4 whole (tv5 i) e w = (λ q. ground arith, λ q. w)
  passes4 whole work_list e w = (λ q. ground arith, λ q. w)

  pub passes5 :
      j % 2 ^ 28 ≡ 0
      → Passes j
          (Stands j (j + 1) (j + 1) (j + 1) j)
          (Stands j (j + 1) (j + 1) (j + 1) (j + 1))
          (tv5 (index3 j))
  unfolding same_head
  passes5 whole (tv1 i) e w = (λ q. ground arith, λ q. w)
  passes5 whole (tv2 i) e w = (λ q. ground arith, λ q. w)
  passes5 whole (tv3 i) e w = (λ q. ground arith, λ q. w)
  passes5 whole (tv4 i) e w = (λ q. ground arith, λ q. w)
  passes5 whole (tv5 i) e w = (
    λ q. ground (arith, w.slot, w.ahead, w.turn, w.early),
    λ q. InBlock-next (2 ^ 28) j i e w (λ r. ground (arith, w.slot)),
  )
  passes5 whole work_list e w = (λ q. ground arith, λ q. w)
