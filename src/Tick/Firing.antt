-- ===== src/Tick/Firing.antt =====
-- When a trigger fires (common/tick_trigger.h).
use adviskv.Base.{ℕ, zero, suc, ◌+◌, ◌<◌, ◌≡◌, refl, ap, true, false, if◌then◌else◌, arith}
use adviskv.Tick.{TickTrigger, next_limit, is_catch_up_limit, tick, reset, stop}

-- The state after `n` ticks, and how often the trigger fired.
unfoldable pub ticks : ℕ → TickTrigger → TickTrigger × ℕ
ticks zero t = (t, 0)
ticks (suc n) t =
    let (t', fired) = tick t in let (u, times) = ticks n t' in (u, (if fired then 1 else 0) + times)

ticks_stopped : (n : ℕ) (t : TickTrigger) → t.stop_flag ≡ true → ticks n t ≡ (t, 0)
unfolding ticks tick
ticks_stopped zero t h = refl
ticks_stopped (suc n) t h = ground (arith, ticks_stopped n t h)

-- A stopped trigger never fires, until it is reset.
pub ticks-stop : (n : ℕ) (t : TickTrigger) → ticks n (stop t) ≡ (stop t, 0)
unfolding stop
ticks-stop n t = ticks_stopped n (stop t) refl

ticks_quiet :
    (n : ℕ) (t : TickTrigger)
    → t.stop_flag ≡ false
    → t.cur_cnt + n < t.limit_cnt
    → ticks n t ≡ (record t { cur_cnt = t.cur_cnt + n }, 0)
unfolding ticks tick
ticks_quiet zero t h q = ground arith
ticks_quiet (suc n) t h q = ground (arith, ticks_quiet n (record t { cur_cnt = t.cur_cnt + 1 }) h)

-- The tick that reaches the limit fires.
ticks_fire :
    (n : ℕ) (t : TickTrigger)
    → t.stop_flag ≡ false
    → t.cur_cnt + suc n ≡ t.limit_cnt
    → (ticks (suc n) t).1 ≡ 1
unfolding ticks tick is_catch_up_limit
ticks_fire zero t h q = ground arith
ticks_fire (suc n) t h q = ground (arith, ticks_fire n (record t { cur_cnt = t.cur_cnt + 1 }) h)

-- A reset trigger counts from 0 again, with a limit above 0.
reset_counts :
    (t : TickTrigger)
    → (reset t).1 ≡ false
    → let t' = (reset t).0 in (t'.stop_flag ≡ false) × (t'.cur_cnt ≡ 0)
unfolding reset is_catch_up_limit next_limit
reset_counts t h = ground arith

-- After a reset to the limit n + 1, which does not fire at once, n ticks are silent and the next one
-- fires.
pub reset_fires_at_limit :
    (t : TickTrigger) (n : ℕ)
    → (reset t).1 ≡ false
    → (reset t).0.limit_cnt ≡ suc n
    → ((ticks n (reset t).0).1 ≡ 0) × ((ticks (suc n) (reset t).0).1 ≡ 1)
reset_fires_at_limit t n h l =
    let (running, zeroed) = reset_counts t h in
    let quiet = ticks_quiet n (reset t).0 running (rw (zeroed, l) (omega arith)) in
    (ap (λ p. p.1) quiet, ticks_fire n (reset t).0 running (rw (zeroed, l) (omega arith)))
