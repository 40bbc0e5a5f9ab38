-- ===== src/Wedge/Tests.antt =====
-- The theorems on the wedge detector at concrete inputs, over whole numbers for the floats.
use llamesh.Prelude.{ℕ, ◌-◌, ◌*◌, ◌/◌, ◌≡◌, refl, true, false, some, [], ◌∷◌, ltb, leb}
use llamesh.Prelude.Eq.{string_key}
use llamesh.Wedge.{Floats, WedgeInputs, wedged_this_tick, update_entry, mark, entry_for, Kill}
use llamesh.Wedge.Streak.{Tick, Streak, wedged_for-Streak}
use llamesh.Wedge.Stopping.{Instance, Node}

-- Hundredths of a core.
abbrev hundredths : Floats
hundredths = record {
  Float = ℕ;
  gt = λ a b. ltb b a;
  le = λ a b. leb a b;
  zero = 0;
  of_u64 = λ n. n;
  secs = λ n. n / 1000000000;
  mul = λ a b. a * b;
  div = λ a b. 100 * a / b;
  cpu_eps_cores = 2;
}

abbrev stuck : WedgeInputs ℕ
stuck = record {
  in_flight = 2;
  awaiting_downstream = 1;
  cpu_busy_cores = some 0;
  gpu_sm_util = some 0;
  gpu_present = true;
  cpu_only = false;
  gpu_util_trusted = true;
  cpu_eps_cores = 2;
  gpu_eps_util = 1;
}

abbrev tick_at : ℕ → Tick
tick_at now = record { now = now; pid = 7; busy_now = some 100; verdict = wedged_this_tick }

wedged_for-Streak_example :
    (since : ℕ) × Streak since 7 (tick_at 30 ∷ tick_at 20 ∷ tick_at 10 ∷ []) × (20 ≡ 30 - since)
unfolding update_entry mark entry_for
wedged_for-Streak_example = wedged_for-Streak (tick_at 30) (tick_at 20 ∷ tick_at 10 ∷ []) 20 refl

abbrev held_slot : Instance
held_slot = record {
  in_flight_requests = 1;
  streams_awaiting_downstream = 0;
  pid = some 7;
  last_activity = 5;
}

abbrev node : Node
node = record { instances = ("i", held_slot) ∷ []; wedged_instances_killed_total = 0 }

abbrev confirmed : Kill
confirmed = record { id = "i"; pid = 7; wedged_for = 600; last_activity = 5 }
