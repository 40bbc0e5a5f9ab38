-- ===== src/Wedge/Verdict.antt =====
-- When a single sample looks wedged.
use llamesh.Prelude.{
  ℕ, ◌≡◌, ◌↔◌, Bool, true, false, not, ◌&&◌, Option, none, some, arith, ltb, leb, if◌then◌else◌,
}
use llamesh.Wedge.{Floats, WedgeInputs, wedged_this_tick, evaluate_wedge}

module _ (fl : Floats) where
  -- The CPU reading is there and shows no work.
  abbrev cpu_idle : fl.Float → Option fl.Float → Bool
  cpu_idle eps none = false
  cpu_idle eps (some cpu) = not (fl.gt cpu eps)

  -- The GPU reading shows no work, or is absent where its absence is telling: on a node whose GPU
  -- readings are trusted, or one that is asserted to have no GPU.
  abbrev gpu_idle : WedgeInputs fl.Float → Option ℕ → Bool
  gpu_idle i (some util) = leb util i.gpu_eps_util
  gpu_idle i none = if i.gpu_present then i.gpu_util_trusted else i.cpu_only

  abbrev pub looks_wedged : WedgeInputs fl.Float → Bool
  looks_wedged i =
      ltb i.awaiting_downstream i.in_flight
      && (cpu_idle i.cpu_eps_cores i.cpu_busy_cores && gpu_idle i i.gpu_sm_util)

  -- A sample reads as wedged exactly where a request waits on the instance itself, the CPU was
  -- measured and is idle, and the GPU is idle as far as the node can tell.
  pub evaluate_wedge_iff :
      (i : WedgeInputs fl.Float)
      → (evaluate_wedge fl i ≡ wedged_this_tick) ↔ (looks_wedged i ≡ true)
  unfolding evaluate_wedge
  evaluate_wedge_iff i = ground arith
