-- ===== src/TimerWheel.antt =====
-- src/lib/timer_wheel.c: the timers of the program. `Wheel` is the state and the calls on a timer,
-- `Run` the tick.
pub mod Wheel
pub mod Run
mod Runs
