-- ===== src/Admission/Tests.antt =====
-- The theorems on admission at concrete inputs: two idle instances and a busy one.
use llamesh.Prelude.{ℕ, ◌≡◌, refl, true, false, none, some, List, [], ◌∷◌, String, arith}
use llamesh.Prelude.Eq.{string_key}
use llamesh.Prelude.Dict.{lookup, insert, remove}
use llamesh.SpawnReservations.{ReservationState, node_total, profile_count}
use llamesh.Admission.Sort.{Candidate, sort_by_key}
use llamesh.Admission.Account.{Instance, Samples, resource_accounting, add_instance}
use llamesh.Admission.{
  Limits, SpawnPlan, ok, current_load, idle_candidates, evict_until, fits, pick_victims, plan_spawn,
  count_profile_instances, effective_max_instances,
}
use llamesh.Admission.Evicted.{IsQueue, Evicts, pick_victims-Outcome}
use llamesh.Admission.Plans.{Admits, plan_spawn-Admits}

abbrev instance_at : String → ℕ → ℕ → Instance
instance_at id in_flight last_activity = record {
  id = id;
  model_name = "m";
  profile_id = "p";
  in_flight_requests = in_flight;
  last_activity = last_activity;
  has_reservation = true;
  learned_memory = (0, 0);
}

abbrev instances : List Instance
instances = instance_at "i1" 0 30 ∷ instance_at "i2" 1 10 ∷ instance_at "i3" 0 20 ∷ []

abbrev reservations : ReservationState
reservations = record {
  entries =
      (
        "i1",
        record { key = "m:p"; pending = false; pid = some 11; estimate = (400, 100); ready = true },
      )
      ∷ (
        "i2",
        record { key = "m:p"; pending = false; pid = some 12; estimate = (400, 100); ready = true },
      )
      ∷ (
        "i3",
        record { key = "m:p"; pending = false; pid = none; estimate = (300, 100); ready = false },
      )
      ∷ [];
  revision = 9;
}

abbrev samples : Samples
samples = record {
  sample_vram = λ pid. some 350;
  sample_sysmem = λ pid. some 90;
  sample_device_vram = some (record { used_mb = 900; total_mb = 2000 });
}

abbrev limits : Limits
limits = record {
  max_vram_mb = 1500;
  max_sysmem_mb = 1000;
  max_instances_per_node = 4;
  max_instances_per_model = 8;
}

abbrev plan : SpawnPlan
plan = record { victims = "i3" ∷ []; revision = 9 }

-- The least recently used idle instance makes room.
plans_eviction : plan_spawn limits samples reservations instances "m" "p" none (500, 100) ≡ ok plan
unfolding plan_spawn resource_accounting pick_victims fits evict_until idle_candidates sort_by_key
    count_profile_instances effective_max_instances profile_count node_total add_instance lookup
    insert remove
plans_eviction = refl

plan_spawn-Admits_example :
    Admits limits samples reservations instances "m" "p" none (500, 100) plan
plan_spawn-Admits_example =
    plan_spawn-Admits limits samples reservations instances "m" "p" none (500, 100) plan
      (omega arith) (omega arith) plans_eviction

pick_victims-Outcome_example :
    (cs : List Candidate) × IsQueue
      (resource_accounting samples reservations instances)
      instances
      cs
    × Evicts limits
        (500, 100)
        (current_load (resource_accounting samples reservations instances) instances)
        cs
        (pick_victims limits
          (resource_accounting samples reservations instances)
          instances
          (500, 100))
pick_victims-Outcome_example =
    pick_victims-Outcome limits (resource_accounting samples reservations instances) instances
      (500, 100)
