-- ===== src/TimerWheel/Wheel/Slots.antt =====
-- Where `_tw_add_timer` puts a timer, and what the place says of its deadline.
use smartdns_ui.Prelude.{
  ℕ, ◌+◌, ◌-◌, ◌*◌, ◌/◌, ◌%◌, ◌^◌, ◌≤◌, ◌<◌, ◌≡◌, refl, ◌⊎◌, inl, inr, arith, ltb, leb, Bool-cases,
}
use smartdns_ui.TimerWheel.Wheel.{Head, tv1, tv2, tv3, tv4, tv5, work_list, max_tval, pick_vec}

-- A slot of a wheel whose slots take `size` ticks: the slot is emptied at the start of the block
-- `b`, which is not before `now`, less than a turn away, and not after the deadline.
pub record InBlock (size now i expires : ℕ) : Type 0 where
  pub b : ℕ
  pub slot : b % 64 ≡ i
  pub ahead : now ≤ b * size
  pub turn : b * size < now + 64 * size
  pub early : b * size ≤ expires

-- A slot of the wheel of single ticks: its own tick is the deadline, or the deadline is over and
-- the slot is that of `now`.
abbrev pub InTick : ℕ → ℕ → ℕ → Type 0
InTick now i e = ((now ≤ e) × (e < now + 1024) × (e % 1024 ≡ i)) ⊎ ((e < now) × (i ≡ now % 1024))

-- A timer stands where the ticks find it in time: those from `now` on for the wheel of single
-- ticks, and those from `n2` to `n5` on for the coarse wheels. It is not on the work list.
abbrev pub Stands : ℕ → ℕ → ℕ → ℕ → ℕ → Head → ℕ → Type 0
Stands now n2 n3 n4 n5 (tv1 i) e = InTick now i e
Stands now n2 n3 n4 n5 (tv2 i) e = InBlock (2 ^ 10) n2 i e
Stands now n2 n3 n4 n5 (tv3 i) e = InBlock (2 ^ 16) n3 i e
Stands now n2 n3 n4 n5 (tv4 i) e = InBlock (2 ^ 22) n4 i e
Stands now n2 n3 n4 n5 (tv5 i) e = InBlock (2 ^ 28) n5 i e
Stands now n2 n3 n4 n5 work_list e = ⊥

abbrev pub OnTime : ℕ → Head → ℕ → Type 0
OnTime now = Stands now now now now now

-- This tick or the next.
abbrev pub IsNext : ℕ → ℕ → Type 0
IsNext now n = (now ≤ n) × (n ≤ now + 1)

-- The place of a timer is right for this tick, and for the coarse wheels also for the next.
module _ (now e : ℕ) (small : now < 2 ^ 62) (near : e < 2 ^ 63) where
  pub pick_vec-Stands :
      (n2 n3 n4 n5 : ℕ)
      → IsNext now n2
      → IsNext now n3
      → IsNext now n4
      → IsNext now n5
      → Stands now n2 n3 n4 n5 (pick_vec now e) e
  unfolding pick_vec
  pick_vec-Stands n2 n3 n4 n5 i2 i3 i4 i5 =
      let idx : ℕ = (e + 2 ^ 64 - now) % 2 ^ 64 in
      let block : (k next : ℕ)
          → ((e / k) * k ≤ e)
          → next ≤ (e / k) * k
          → (e / k) * k < next + 64 * k
          → InBlock k next (e / k % 64) e =
        λ k next early ahead turn. record {
          b = e / k;
          slot = refl;
          ahead = ahead;
          turn = turn;
          early = early;
        } in
      elim (Bool-cases (ltb idx (2 ^ 10))) [
        | inl a ↦ rw a (inl (ground arith, ground arith, refl))
        | inr a ↦ elim (Bool-cases (ltb idx (2 ^ 16))) [
          | inl b ↦ rw (a, b) (block (2 ^ 10) n2 (omega arith) (ground arith) (ground arith))
          | inr b ↦ elim (Bool-cases (ltb idx (2 ^ 22))) [
            | inl c ↦ rw (a, b, c) (block (2 ^ 16) n3 (omega arith) (ground arith) (ground arith))
            | inr c ↦ elim (Bool-cases (ltb idx (2 ^ 28))) [
              | inl d ↦
                  rw (a, b, c, d) (block (2 ^ 22) n4 (omega arith) (ground arith) (ground arith))
              | inr d ↦ elim (Bool-cases (leb (2 ^ 63) idx)) [
                | inl f ↦ rw (a, b, c, d, f) (inr (ground arith, refl))
                | inr f ↦ elim (Bool-cases (ltb max_tval idx)) [
                  | inl g ↦
                      rw (a, b, c, d, f, g)
                        (record {
                          b = (max_tval + now) / 2 ^ 28;
                          slot = omega arith;
                          ahead = omega arith;
                          turn = omega arith;
                          early = ground arith;
                        })
                  | inr g ↦
                      rw (a, b, c, d, f, g)
                        (block (2 ^ 28) n5 (omega arith) (ground arith) (ground arith))
                ]
              ]
            ]
          ]
        ]
      ]
