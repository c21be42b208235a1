-- ===== src/Blaze/Activation/Tolerance.antt =====
-- About `handle_tolerance_counter`, and failures in a row.
use bifrost_node.Prelude.{ℕ, zero, suc, ◌+◌, ◌-◌, ◌≤◌, ◌<◌, ◌≡◌, Bool, true, false, u32_mod, arith}
use bifrost_node.Blaze.Types.{Config, Storage}
use bifrost_node.Blaze.Activation.{handle_tolerance_counter}

-- Whatever the counter was, it is at most the threshold afterwards.
pub handle_tolerance_counter-le :
    (c : Config) (is_increase : Bool) (s : Storage)
    → (handle_tolerance_counter c is_increase s).tolerance_counter ≤ c.tolerance_threshold
unfolding handle_tolerance_counter
handle_tolerance_counter-le c is_increase s = ground arith

abbrev pub failures : Config → ℕ → Storage → Storage
failures c zero s = s
failures c (suc n) s = failures c n (handle_tolerance_counter c true s)

one_failure :
    (c : Config) (s : Storage)
    → c.tolerance_threshold < u32_mod - 1
    → s.tolerance_counter < c.tolerance_threshold
    → (handle_tolerance_counter c true s).tolerance_counter ≡ s.tolerance_counter + 1
unfolding handle_tolerance_counter
one_failure c s h l = ground arith

last_failure :
    (c : Config) (s : Storage)
    → c.tolerance_threshold < u32_mod - 1
    → s.tolerance_counter ≡ c.tolerance_threshold
    → (handle_tolerance_counter c true s).is_activated ≡ false
unfolding handle_tolerance_counter
last_failure c s h l = ground arith

-- With a threshold that a `u32` can pass, as many failures in a row as the counter is below the
-- threshold, and one more, switch the pallet off.
pub failures-deactivate :
    (c : Config) (n : ℕ) (s : Storage)
    → c.tolerance_threshold < u32_mod - 1
    → s.tolerance_counter + n ≡ c.tolerance_threshold
    → (failures c (suc n) s).is_activated ≡ false
failures-deactivate c zero s h e = last_failure c s h (omega arith)
failures-deactivate c (suc n) s h e =
    failures-deactivate c n (handle_tolerance_counter c true s) h
      (omega (arith, one_failure c s h (omega arith)))
