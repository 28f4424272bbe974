-- ===== src/Http2/Output/Growth.antt =====
-- The loops of src/http_parse/http2.c that double the capacity of a buffer.
use smartdns_ui.Prelude.{
  ℕ, zero, suc, ◌*◌, ◌^◌, ◌≤◌, ◌<◌, ◌≡◌, refl, ap, sym, ◌∙◌, Bool, true, false, Option, none, some,
  ltb, if◌then◌else◌, ◌/◌, lt→ltb, ltb→lt, ltb-false, Bool-cases, inl, inr, arith,
}
use mathlib.Core.Option.{some-injective}
use native.Mathlib.Nat.{pow-suc, mul_comm, mul_assoc}
use smartdns_ui.Http2.Output.{int_max, grow, new_capacity, safe_buffer_size}

-- The loop that doubles a capacity

pub ltb-false→le : (a b : ℕ) → ltb a b ≡ false → b ≤ a
ltb-false→le a b h = ground arith

grow_enough :
    (fuel capacity needed : ℕ)
    → 0 < capacity
    → needed ≤ 2 ^ 30
    → needed ≤ capacity * 2 ^ fuel
    → (c : ℕ) × (grow (suc fuel) capacity needed ≡ some c) × (needed ≤ c)
unfolding grow
grow_enough zero capacity needed h₀ h₁ h₂ =
    rw (ltb-false capacity needed (omega arith)) (capacity, refl, omega arith)
grow_enough (suc fuel) capacity needed h₀ h₁ h₂ = elim (Bool-cases (ltb capacity needed)) [
  | inl e ↦
      let small : capacity < needed = ltb→lt capacity needed e in
      rw (e, ltb-false 1073741823 capacity (omega arith))
        (grow_enough fuel (capacity * 2) needed (omega arith) h₁ (
          omega (
            arith,
            mul_assoc capacity 2 (2 ^ fuel),
            ap (λ (t : ℕ). capacity * t) (pow-suc 2 fuel ∙ mul_comm (2 ^ fuel) 2),
          )))
  | inr e ↦ rw e (capacity, refl, ltb-false→le capacity needed e)
]

-- The size that a buffer grows to, starting from 512 bytes at least, is always found when up to 1 GiB
-- are needed, and is large enough.
pub new_capacity_enough :
    (initial capacity needed : ℕ)
    → 512 ≤ initial
    → needed ≤ 2 ^ 30
    → (c : ℕ) × (new_capacity initial capacity needed ≡ some c) × (needed ≤ c)
unfolding new_capacity
new_capacity_enough initial capacity needed h₀ h₁ = elim (Bool-cases (ltb capacity needed)) [
  | inl e ↦ elim (Bool-cases (ltb 0 capacity)) [
    | inl p ↦
        let small : capacity < needed = ltb→lt capacity needed e in
        let pos : 0 < capacity = ltb→lt 0 capacity p in
        rw (e, p, ltb-false 1073741823 capacity (omega arith))
          (grow_enough 31 (capacity * 2) needed (omega arith) h₁ (omega arith))
    | inr p ↦ rw (e, p) (grow_enough 31 initial needed (omega arith) h₁ (omega arith))
  ]
  | inr e ↦ rw e (capacity, refl, ltb-false→le capacity needed e)
]

-- Every capacity that is found is enough.
grow-le : (fuel capacity needed c : ℕ) → grow fuel capacity needed ≡ some c → needed ≤ c
unfolding grow
grow-le zero capacity needed c h = cc
grow-le (suc fuel) capacity needed c h = ground (arith, grow-le fuel (capacity * 2) needed c)

grow-le_after :
    (doubled : Option ℕ) (needed c : ℕ)
    → elim doubled [ none ↦ none | some c' ↦ grow 32 c' needed ] ≡ some c
    → needed ≤ c
grow-le_after none needed c h = cc
grow-le_after (some c') needed c h = grow-le 32 c' needed c h

pub new_capacity-le :
    (initial capacity needed c : ℕ) → new_capacity initial capacity needed ≡ some c → needed ≤ c
unfolding new_capacity
new_capacity-le initial capacity needed c h =
    let doubled : Option ℕ = safe_buffer_size capacity 2 in
    capacity_if (ltb capacity needed) (ltb 0 capacity) _ _ capacity c h
      (grow-le_after doubled needed c) (grow-le 32 initial needed c)
      (λ e. ltb-false→le capacity needed e)
  where
    capacity_if :
        (t p : Bool) (x y : Option ℕ) (capacity c : ℕ)
        → (if t then (if p then x else y) else some capacity) ≡ some c
        → (x ≡ some c → needed ≤ c)
        → (y ≡ some c → needed ≤ c)
        → (t ≡ false → needed ≤ capacity)
        → needed ≤ c
    capacity_if true true x y capacity c h f g k = f h
    capacity_if true false x y capacity c h f g k = g h
    capacity_if false p x y capacity c h f g k = omega (arith, k refl, some-injective _ _ h)

-- Whatever is needed, from a capacity of one byte or more the loop has ended after as many rounds as
-- double it past an `int`: more rounds give the same, so 32 are as good as no limit.
grow_more :
    (fuel more capacity needed : ℕ)
    → fuel ≤ more
    → int_max < capacity * 2 ^ suc fuel
    → grow (suc fuel) capacity needed ≡ grow (suc more) capacity needed
unfolding grow
grow_more zero more capacity needed l h =
    let over : ltb (int_max / 2) capacity ≡ true = lt→ltb (int_max / 2) capacity (omega arith) in
    rw over refl
grow_more (suc fuel) zero capacity needed l h = absurd (omega arith)
grow_more (suc fuel) (suc more) capacity needed l h =
    elim (Bool-cases (ltb (int_max / 2) capacity)) [
      | inl e ↦ rw e refl
      | inr e ↦
          let twice : capacity * 2 * 2 ^ suc fuel ≡ capacity * 2 ^ suc (suc fuel) =
            mul_assoc capacity 2 (2 ^ suc fuel)
            ∙ ap (λ (t : ℕ). capacity * t)
                (mul_comm 2 (2 ^ suc fuel) ∙ sym (pow-suc 2 (suc fuel))) in
          rw (e, grow_more fuel more (capacity * 2) needed (omega arith) (omega (arith, twice)))
            refl
    ]

pub grow_all :
    (more capacity needed : ℕ)
    → 31 ≤ more
    → 0 < capacity
    → grow 32 capacity needed ≡ grow (suc more) capacity needed
grow_all more capacity needed l h = grow_more 31 more capacity needed l (omega arith)
