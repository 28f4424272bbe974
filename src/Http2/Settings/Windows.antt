-- ===== src/Http2/Settings/Windows.antt =====
-- The arithmetic of the windows that the peer changes in src/http_parse/http2.c.
use smartdns_ui.Prelude.{
  add32, sub32, ℕ, ◌+◌, ◌%◌, ◌^◌, ◌<◌, ◌≡◌, refl, Bool, true, false, List, [], ◌∷◌, ltb, All, arith,
  Bool-cases, if◌then◌else◌, inl, inr,
}
use smartdns_ui.Http2.State.{Stream, Ctx}
use smartdns_ui.Http2.Output.{int_max}
use smartdns_ui.Http2.Control.{with_goaway, rst_flow_control_error}
use smartdns_ui.Http2.Receive.{Handled}
use smartdns_ui.Http2.Settings.{overflows, is_too_much, shift_windows, set_initial_window}

-- The value of an `int`, moved up by 2 ^ 31
abbrev pub offset : ℕ → ℕ
offset w = (w + 2 ^ 31) % 2 ^ 32

offset-add32 :
    (w old new : ℕ)
    → w < 2 ^ 32
    → old < 2 ^ 31
    → new < 2 ^ 31
    → overflows w (sub32 new old) ≡ false
    → offset (add32 w (sub32 new old)) + old ≡ offset w + new
offset-add32 w old new hw ho hn e = ground arith

pub offset-increment :
    (w n : ℕ)
    → w < 2 ^ 32
    → n < 2 ^ 31
    → is_too_much w n ≡ false
    → offset (add32 w n) ≡ offset w + n
offset-increment w n hw hn e = ground arith

abbrev pub IsWord : Stream → Type 0
IsWord s = s.send_window_size < 2 ^ 32

-- A stream whose window moved by `new` less `old`, and nothing else of it
abbrev pub Shifted : ℕ → ℕ → Stream → Stream → Type 0
Shifted old new s s' =
    (offset s'.send_window_size + old ≡ offset s.send_window_size + new)
    × (s' ≡ record s { send_window_size = s'.send_window_size })

abbrev pub AllShifted : ℕ → ℕ → List Stream → List Stream → Type 0
AllShifted old new [] [] = Unit
AllShifted old new [] (s' ∷ streams') = ⊥
AllShifted old new (s ∷ streams) [] = ⊥
AllShifted old new (s ∷ streams) (s' ∷ streams') =
    Shifted old new s s' × AllShifted old new streams streams'

abbrev pub Shifts : ℕ → ℕ → List Stream → Bool × List Stream → Type 0
Shifts old new streams (true, streams') = AllShifted old new streams streams'
Shifts old new streams (false, streams') = Unit

Shifts-if :
    (old new : ℕ) (s s' : Stream) (streams : List Stream) (t : Bool) (rest : Bool × List Stream)
    → (t ≡ false → Shifted old new s s')
    → Shifts old new streams rest
    → Shifts old new (s ∷ streams) (if t then (false, s ∷ streams) else (rest.0, s' ∷ rest.1))
Shifts-if old new s s' streams true rest f h = tt
Shifts-if old new s s' streams false (true, rest) f h = (f refl, h)
Shifts-if old new s s' streams false (false, rest) f h = tt

shift_windows-Shifts :
    (old new : ℕ) (streams : List Stream)
    → old < 2 ^ 31
    → new < 2 ^ 31
    → All IsWord streams
    → Shifts old new streams (shift_windows streams (sub32 new old))
unfolding shift_windows
shift_windows-Shifts old new [] ho hn h = tt
shift_windows-Shifts old new (s ∷ streams) ho hn (w, h) =
    let delta : ℕ = sub32 new old in
    let s' : Stream = record s { send_window_size = add32 s.send_window_size delta } in
    Shifts-if old new s s' streams (overflows s.send_window_size delta)
      (shift_windows streams delta) (λ k. (offset-add32 s.send_window_size old new w ho hn k, refl))
      (shift_windows-Shifts old new streams ho hn h)

abbrev pub Takes : Ctx → ℕ → Handled → Type 0
Takes c value (true, c') =
    AllShifted c.send_initial_window_size value c.streams c'.streams
    × (c'.send_initial_window_size ≡ value)
    × (value < 2 ^ 31)
Takes c value (false, c') = Unit

Takes-if :
    (c c₁ c₂ : Ctx) (value : ℕ) (shifted : Bool × List Stream)
    → (value < 2 ^ 31 → Shifts c.send_initial_window_size value c.streams shifted)
    → Takes c value (
        if ltb int_max value
        then (false, c₁)
        else if shifted.0
        then (true, record c { send_initial_window_size = value; streams = shifted.1 })
        else (false, c₂))
Takes-if c c₁ c₂ value (ok_all, streams) h = elim (Bool-cases (ltb int_max value)) [
  | inl e ↦ rw e tt
  | inr e ↦
      let small : value < 2 ^ 31 = ground arith in
      rw e (Takes-taken c c₂ value ok_all streams small (h small))
]
  where
    Takes-taken :
        (c c₂ : Ctx) (value : ℕ) (ok_all : Bool) (streams : List Stream)
        → value < 2 ^ 31
        → Shifts c.send_initial_window_size value c.streams (ok_all, streams)
        → Takes c value (
            if ok_all
            then (true, record c { send_initial_window_size = value; streams = streams })
            else (false, c₂))
    Takes-taken c c₂ value true streams small h = (h, refl, small)
    Takes-taken c c₂ value false streams small h = tt

-- Both initial windows being less than 2 ^ 31, and the windows of the streams words: when the peer's
-- new initial window is taken, the window of each stream moves by the difference to the old one,
-- exactly: no `int` wraps around. Nothing else of the streams changes.
pub set_initial_window-Takes :
    (c : Ctx) (value : ℕ)
    → c.send_initial_window_size < 2 ^ 31
    → All IsWord c.streams
    → Takes c value (set_initial_window c value)
unfolding set_initial_window
set_initial_window-Takes c value hi hw =
    let delta : ℕ = sub32 value c.send_initial_window_size in
    let shifted : Bool × List Stream = shift_windows c.streams delta in
    let c' : Ctx = record c { send_initial_window_size = value; streams = shifted.1 } in
    Takes-if c (with_goaway c rst_flow_control_error) (with_goaway c' rst_flow_control_error) value
      shifted (λ hv. shift_windows-Shifts c.send_initial_window_size value c.streams hi hv hw)
