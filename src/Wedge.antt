-- ===== src/Wedge.antt =====
-- src/wedge_detector.rs, and the watchdog over it in src/node_state/mod.rs: which instances hold a
-- slot and do nothing, for how long, and which are stopped for it. Floating-point numbers are the
-- parameter `Floats`. What procfs and NVML report in one tick is the parameter `Sweep`.
pub mod Verdict
pub mod Streak
pub mod Stopping
pub mod Tests
use llamesh.Prelude.{
  ℕ, suc, ◌+◌, ◌-◌, Bool, true, false, not, ◌&&◌, ◌||◌, Option, none, some, List, [], ◌∷◌, ◌++◌,
  map, String, any, keep, ltb, leb, eqb, if◌then◌else◌,
}
use llamesh.Prelude.Eq.{nat_key, string_key, ◌==◌}
use llamesh.Prelude.Dict.{Dict, lookup, insert, remove}

-- `f64`, as far as the detector uses it: comparisons, conversions and the busy-core quotient.
pub record Floats : Type 1 where
  pub Float : Type 0
  pub gt : Float → Float → Bool  -- `a > b`
  pub le : Float → Float → Bool  -- `a <= b`
  pub zero : Float  -- `0.0`
  pub of_u64 : ℕ → Float  -- `n as f64`
  pub secs : ℕ → Float  -- `Duration::as_secs_f64`, of nanoseconds
  pub mul : Float → Float → Float
  pub div : Float → Float → Float
  pub cpu_eps_cores : Float  -- `CPU_EPS_CORES`, 0.02

abbrev pub gpu_eps_util : ℕ
gpu_eps_util = 1

pub data WedgeVerdict : Type 0 where
  not_wedged wedged_this_tick : WedgeVerdict

pub record WedgeInputs (Float : Type 0) : Type 0 where
  pub in_flight : ℕ
  pub awaiting_downstream : ℕ
  pub cpu_busy_cores : Option Float
  pub gpu_sm_util : Option ℕ
  pub gpu_present : Bool
  pub cpu_only : Bool
  pub gpu_util_trusted : Bool
  pub cpu_eps_cores : Float
  pub gpu_eps_util : ℕ

-- The last match of `evaluate_wedge`.
abbrev gpu_verdict : Option ℕ → Bool → Bool → Bool → ℕ → WedgeVerdict
gpu_verdict (some util) present cpu_only trusted eps =
    if leb util eps then wedged_this_tick else not_wedged
gpu_verdict none present cpu_only trusted eps =
    if present
    then if trusted then wedged_this_tick else not_wedged
    else if cpu_only
    then wedged_this_tick
    else not_wedged

-- What a process has done between two samples, for the watchdog's bookkeeping of one instance.
pub record InstanceWedgeState : Type 0 where
  pub pid : ℕ
  pub prev_busy_ticks : ℕ
  pub prev_sample_at : ℕ
  pub wedged_since : Option ℕ

pub record WedgeDetectorState : Type 0 where
  pub per_instance : Dict String InstanceWedgeState
  pub gpu_last_seen_ts : Option ℕ
  pub gpu_util_trusted : Bool

-- A ready instance with a slot in use, as the first step of the watchdog snapshots it.
pub record Candidate : Type 0 where
  pub id : String
  pub pid : ℕ
  pub in_flight : ℕ
  pub awaiting_downstream : ℕ
  pub last_activity : ℕ

pub record Sweep : Type 0 where
  pub gpu_present : Bool
  pub gpu_util : Dict ℕ ℕ
  pub gpu_new_ts : Option ℕ
  pub gpu_usable : Bool
  pub cpu_busy_ticks : ℕ → Option ℕ
  pub ticks_per_sec : ℕ

-- A confirmed wedge: `wedged_for` and the activity stamp of the work that wedged.
pub record Kill : Type 0 where
  pub id : String
  pub pid : ℕ
  pub wedged_for : ℕ
  pub last_activity : ℕ

abbrev pub or_else {ℓ} : {A : Type ℓ} → Option A → Option A → Option A
or_else none b = b
or_else (some a) b = some a

abbrev unwrap_or {ℓ} : {A : Type ℓ} → Option A → A → A
unwrap_or none d = d
unwrap_or (some a) d = a

-- `st.wedged_since` after the verdict, and how long the streak has lasted if there is one.
unfoldable pub mark : WedgeVerdict → InstanceWedgeState → ℕ → InstanceWedgeState × Option ℕ
mark not_wedged st now = (record st { wedged_since = none }, none)
mark wedged_this_tick st now =
    let since = unwrap_or st.wedged_since now in
    (record st { wedged_since = some since }, some (now - since))

-- The entry for an instance, made on its first observation and reset on a respawn.
unfoldable pub entry_for : Option InstanceWedgeState → ℕ → Option ℕ → ℕ → InstanceWedgeState
entry_for none pid busy_now now = record {
  pid = pid;
  prev_busy_ticks = unwrap_or busy_now 0;
  prev_sample_at = now;
  wedged_since = none;
}
entry_for (some st) pid busy_now now =
    if not (eqb st.pid pid) then record st { pid = pid; wedged_since = none } else st

-- The CPU baseline for the next tick.
abbrev advance_baseline : Option ℕ → ℕ → InstanceWedgeState → InstanceWedgeState
advance_baseline none now st = st
advance_baseline (some busy) now st = record st { prev_busy_ticks = busy; prev_sample_at = now }

-- One instance's entry across a tick with a given verdict.
unfoldable pub update_entry :
    Option InstanceWedgeState → ℕ → Option ℕ → ℕ → WedgeVerdict → InstanceWedgeState × Option ℕ
unfolding mark entry_for
update_entry prev pid busy_now now verdict =
    let (st, wedged_for) = mark verdict (entry_for prev pid busy_now now) now in
    (advance_baseline busy_now now st, wedged_for)

abbrev pub confirm : ℕ → Candidate → Option ℕ → List Kill
confirm window c none = []
confirm window c (some wedged_for) =
    if leb window wedged_for
    then record { id = c.id; pid = c.pid; wedged_for = wedged_for; last_activity = c.last_activity }
      ∷ []
    else []

abbrev is_candidate : List Candidate → String → Bool
is_candidate cs id = any (λ c. c.id == id) cs

abbrev set_ts : Option ℕ → Option ℕ → Option ℕ
set_ts none old = old
set_ts (some ts) old = some ts

-- The updates of the detector's state that precede the loop over the candidates.
unfoldable pub absorb : Sweep → List Candidate → WedgeDetectorState → WedgeDetectorState
absorb sweep cs state = record {
  per_instance = keep (λ kv. is_candidate cs kv.0) state.per_instance;
  gpu_last_seen_ts = set_ts sweep.gpu_new_ts state.gpu_last_seen_ts;
  gpu_util_trusted = state.gpu_util_trusted || any (λ kv. ltb gpu_eps_util kv.1) sweep.gpu_util;
}

module _ (fl : Floats) where
  abbrev cpu_verdict : WedgeInputs fl.Float → Option fl.Float → WedgeVerdict
  cpu_verdict i none = not_wedged
  cpu_verdict i (some cpu) =
      if fl.gt cpu i.cpu_eps_cores
      then not_wedged
      else gpu_verdict i.gpu_sm_util i.gpu_present i.cpu_only i.gpu_util_trusted i.gpu_eps_util

  unfoldable pub evaluate_wedge : WedgeInputs fl.Float → WedgeVerdict
  evaluate_wedge i =
      if leb i.in_flight i.awaiting_downstream then not_wedged else cpu_verdict i i.cpu_busy_cores

  unfoldable pub cpu_busy_cores : ℕ → ℕ → ℕ → fl.Float → fl.Float
  cpu_busy_cores busy_now busy_prev ticks_per_sec interval_secs =
      if eqb ticks_per_sec 0 || fl.le interval_secs fl.zero
      then fl.zero
      else fl.div (fl.of_u64 (busy_now - busy_prev))
          (fl.mul (fl.of_u64 ticks_per_sec) interval_secs)

  -- The CPU rate against the previous sample of this very process.
  unfoldable pub cpu_rate : Option InstanceWedgeState → Option ℕ → ℕ → ℕ → ℕ → Option fl.Float
  cpu_rate (some prev) (some busy) pid ticks_per_sec now =
      if eqb prev.pid pid
      then some (
          cpu_busy_cores busy prev.prev_busy_ticks ticks_per_sec
            (fl.secs (now - prev.prev_sample_at)))
      else none
  cpu_rate _ _ pid ticks_per_sec now = none

  -- The verdict on one candidate.
  unfoldable pub judge :
      Sweep → Bool → Bool → Option InstanceWedgeState → Candidate → ℕ → WedgeVerdict
  unfolding evaluate_wedge cpu_rate
  judge sweep cpu_only trusted prev c now = evaluate_wedge (record {
    in_flight = c.in_flight;
    awaiting_downstream = c.awaiting_downstream;
    cpu_busy_cores = cpu_rate prev (sweep.cpu_busy_ticks c.pid) c.pid sweep.ticks_per_sec now;
    gpu_sm_util = if sweep.gpu_usable then lookup c.pid sweep.gpu_util else none;
    gpu_present = sweep.gpu_present;
    cpu_only = cpu_only;
    gpu_util_trusted = trusted && sweep.gpu_usable;
    cpu_eps_cores = fl.cpu_eps_cores;
    gpu_eps_util = gpu_eps_util;
  })

  -- The body of the loop over the candidates.
  unfoldable pub decide :
      Sweep → Bool → ℕ → ℕ → WedgeDetectorState → Candidate → WedgeDetectorState × List Kill
  decide sweep cpu_only window now state c =
      let prev = lookup c.id state.per_instance in
      let verdict = judge sweep cpu_only state.gpu_util_trusted prev c now in
      let (st, wedged_for) = update_entry prev c.pid (sweep.cpu_busy_ticks c.pid) now verdict in
      (
        record state { per_instance = insert c.id st state.per_instance },
        confirm window c wedged_for,
      )

  unfoldable pub decide_all :
      Sweep → Bool → ℕ → ℕ → WedgeDetectorState → List Candidate → WedgeDetectorState × List Kill
  unfolding decide
  decide_all sweep cpu_only window now state [] = (state, [])
  decide_all sweep cpu_only window now state (c ∷ cs) =
      let (state', kills) = decide sweep cpu_only window now state c in
      let (final, more) = decide_all sweep cpu_only window now state' cs in (final, kills ++ more)

  -- One run of `detect_and_kill_wedged_instances`, up to the kills that it asks for.
  unfoldable pub detect :
      Sweep → Bool → ℕ → ℕ → WedgeDetectorState → List Candidate → WedgeDetectorState × List Kill
  unfolding decide_all absorb
  detect sweep cpu_only window now state cs =
      decide_all sweep cpu_only window now (absorb sweep cs state) cs
