-- ===== src/Tick.antt =====
-- common/tick_trigger.h: a counter that fires when it reaches its limit. The limit is fixed, or drawn
-- anew from a function at each reset; the n-th value that the function returns is `limit_func n`.
pub mod Firing
use adviskv.Base.{ℕ, ◌+◌, Bool, true, false, Option, none, some, ltb, if◌then◌else◌}

pub record TickTrigger : Type 0 where
  pub stop_flag : Bool
  pub cur_cnt : ℕ
  pub limit_func : Option (ℕ → ℕ)
  pub drawn : ℕ
  pub limit_cnt : ℕ

-- `limit_cnt_ = make_next_limit()`
unfoldable pub next_limit : TickTrigger → TickTrigger
next_limit t = elim t.limit_func [
  | none ↦ t
  | some f ↦ record t { drawn = t.drawn + 1; limit_cnt = f t.drawn }
]

unfoldable pub fixed_trigger : ℕ → TickTrigger
fixed_trigger limit_cnt = record {
  stop_flag = false;
  cur_cnt = 0;
  limit_func = none;
  drawn = 0;
  limit_cnt = limit_cnt;
}

unfoldable pub drawn_trigger : (ℕ → ℕ) → TickTrigger
unfolding next_limit
drawn_trigger f =
    next_limit
      (record { stop_flag = false; cur_cnt = 0; limit_func = some f; drawn = 0; limit_cnt = 0 })

unfoldable pub is_catch_up_limit : TickTrigger → TickTrigger × Bool
unfolding next_limit
is_catch_up_limit t =
    if ltb t.cur_cnt t.limit_cnt then (t, false) else (next_limit (record t { cur_cnt = 0 }), true)

-- The Boolean says whether the trigger has fired.
unfoldable pub tick : TickTrigger → TickTrigger × Bool
unfolding is_catch_up_limit
tick t =
    if t.stop_flag then (t, false) else is_catch_up_limit (record t { cur_cnt = t.cur_cnt + 1 })

unfoldable pub reset : TickTrigger → TickTrigger × Bool
unfolding is_catch_up_limit
reset t = is_catch_up_limit (next_limit (record t { stop_flag = false; cur_cnt = 0 }))

unfoldable pub clear : TickTrigger → TickTrigger × Bool
unfolding reset
clear t = if t.stop_flag then (t, false) else reset t

unfoldable pub stop : TickTrigger → TickTrigger
stop t = record t { stop_flag = true }
