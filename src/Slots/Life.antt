-- ===== src/Slots/Life.antt =====
-- src/node_state/mod.rs: who holds the slots of the instances, and what may happen next. Every access
-- to an instance under its lock is one step, so requests, releases, sweeps and drains interleave
-- freely.
use llamesh.Prelude.{ℕ, ◌+◌, ◌≡◌, String, Bool, true, false, List, [], ◌∷◌, eqb, if◌then◌else◌}
use llamesh.Prelude.Buckets.{occurs, without}
use llamesh.Slots.{
  Instance, InstanceStatus, starting, Heap, update, claim, release, drain_for_update,
  drain_for_memory, drain_for_competitor, cancel_drain,
}

-- `holders` has an entry for each slot that is held: by a `SlotReleaseGuard`, or by the request that
-- it was detached to. Instances with numbers from `created` on do not exist yet.
pub record World : Type 0 where
  pub heap : Heap
  pub mapped : List ℕ
  pub holders : List ℕ
  pub created : ℕ

abbrev pub take_one : ℕ → List ℕ → List ℕ
take_one i [] = []
take_one i (j ∷ js) = let rest = take_one i js in if eqb i j then js else j ∷ rest

-- A new instance has the slot of the request that spawned it, or none where it is prewarmed.
abbrev pub spawned : String → String → String → Bool → Bool → ℕ → Instance
spawned model profile args_hash reserve_slot across_update now = record {
  model_name = model;
  profile_id = profile;
  args_hash = args_hash;
  status = starting;
  alive = true;
  draining = across_update;
  draining_for_competitor = false;
  in_flight_requests = if reserve_slot then 1 else 0;
  last_activity = now;
}

pub data Step (max_concurrent : ℕ) : World → World → Type 0 where
  -- A request takes a slot of an instance in the map.
  attaches :
      (w : World) (i now : ℕ)
      → occurs i w.mapped ≡ true
      → (claim max_concurrent now (w.heap i)).1 ≡ true
      → Step max_concurrent w (record w {
        heap = update w.heap i (claim max_concurrent now (w.heap i)).0;
        holders = i ∷ w.holders;
      })
  spawns :
      (w : World) (model profile args_hash : String) (reserve_slot across_update : Bool) (now : ℕ)
      → Step max_concurrent w (record {
        heap =
            update w.heap w.created
              (spawned model profile args_hash reserve_slot across_update now);
        mapped = w.created ∷ w.mapped;
        holders = if reserve_slot then w.created ∷ w.holders else w.holders;
        created = w.created + 1;
      })
  -- A slot that is held is released, once.
  releases :
      (w : World) (i : ℕ)
      → occurs i w.holders ≡ true
      → Step max_concurrent w (record w {
        heap = update w.heap i (release (w.heap i)).0;
        holders = take_one i w.holders;
      })
  -- The load ends, or the process does.
  loads :
      (w : World) (i : ℕ) (status : InstanceStatus)
      → Step max_concurrent w
          (record w { heap = update w.heap i (record (w.heap i) { status = status }) })
  dies :
      (w : World) (i : ℕ)
      → Step max_concurrent w
          (record w { heap = update w.heap i (record (w.heap i) { alive = false }) })
  updates :
      (w : World) (i : ℕ)
      → Step max_concurrent w (record w { heap = update w.heap i (drain_for_update (w.heap i)).0 })
  recovers :
      (w : World) (i : ℕ)
      → Step max_concurrent w (record w { heap = update w.heap i (drain_for_memory (w.heap i)) })
  yields :
      (w : World) (i : ℕ) (was_draining dominated tenure_expired own_queue_empty : Bool)
      → Step max_concurrent w (record w {
        heap =
            update w.heap i (
              drain_for_competitor was_draining dominated tenure_expired own_queue_empty
                (w.heap i));
      })
  resumes :
      (w : World) (i : ℕ) (has_competitors : Bool)
      → Step max_concurrent w
          (record w { heap = update w.heap i (cancel_drain has_competitors (w.heap i)).0 })
  -- An instance leaves the map; the requests that hold it go on.
  removes : (w : World) (i : ℕ) → Step max_concurrent w (record w { mapped = without i w.mapped })

pub data Reach (max_concurrent : ℕ) (start : World) : World → Type 0 where
  here : Reach max_concurrent start start
  next :
      {v w : World}
      → Reach max_concurrent start v
      → Step max_concurrent v w
      → Reach max_concurrent start w

abbrev pub nobody : Instance
nobody = record {
  model_name = "";
  profile_id = "";
  args_hash = "";
  status = starting;
  alive = false;
  draining = false;
  draining_for_competitor = false;
  in_flight_requests = 0;
  last_activity = 0;
}

abbrev pub empty_world : World
empty_world = record { heap = λ i. nobody; mapped = []; holders = []; created = 0 }
