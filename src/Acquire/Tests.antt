-- ===== src/Acquire/Tests.antt =====
-- Witnesses of the theorems on `get_instance_for_model`, and runs of its loop.
use llamesh.Prelude.{◌≡◌, refl, String, true, false, some, [], ◌∷◌, ◌++◌}
use llamesh.Queues.{queued_as}
use llamesh.Slots.{starting, ready, failed}
use llamesh.Acquire.{
  Look, Round, Request, got, refused, notified, max_instances_node, receives_token, releases_token,
  joins_queue, marks_needs_eviction, wakes_admissible, tries, takes_slot, releases_slot,
  observes_wait, evicts_idle, evicts_all, acquired, wait_queue, after_wait, queue_up, recover_load,
  refresh_profile_after_reload,
}
use llamesh.Acquire.Turns.{
  adopt_reloaded_profile, settle_attempt, try_spawn, yield_or_try, check_and_go, turn, acquire,
  get_instance_for_model,
}
use llamesh.Acquire.Ledger.{IsSettled}
use llamesh.Acquire.Settled.{get_instance_for_model-IsSettled}
use llamesh.Acquire.Bounds.{Recovers, get_instance_for_model-Recovers}
use llamesh.Acquire.Ending.{Stops, get_instance_for_model-ends}

abbrev request : Request
request = record { key = "m:p"; queue_deadline = some 100; has_request_deadline = true }

abbrev look : Look String
look = record { observed = 2; resolved = some "p"; again = 2 }

-- The node is full: the request waits in the queue, and is woken.
abbrev full : Round String
full = record {
  first = look;
  is_draining = false;
  now = 1;
  has_waiters = false;
  has_waiters_left = false;
  second = look;
  attempt = refused max_instances_node;
  evicted = 0;
  still_draining = false;
  enqueued = queued_as 4;
  wait_start = 2;
  in_time = true;
  received = notified;
}

-- The load fails, and no other instance is idle.
abbrev failing : Round String
failing = record full { attempt = got starting failed true true }

abbrev serving : Round String
serving = record full { attempt = got starting ready true false }

abbrev late : Round String
late = record full { now = 100 }

waits_and_retries :
    get_instance_for_model true request "old" 1
      (refused max_instances_node)
      (full ∷ failing ∷ serving ∷ [])
    ≡ (
      tries 2
          ∷ joins_queue 4
          ∷ marks_needs_eviction
          ∷ wakes_admissible
          ∷ receives_token
          ∷ tries 2
          ∷ takes_slot
          ∷ releases_token
          ∷ observes_wait
          ∷ releases_slot
          ∷ evicts_idle
          ∷ evicts_all
          ∷ tries 2
          ∷ takes_slot
          ∷ observes_wait
          ∷ [],
      acquired,
    )
unfolding get_instance_for_model acquire turn check_and_go yield_or_try try_spawn settle_attempt
    adopt_reloaded_profile refresh_profile_after_reload recover_load queue_up after_wait wait_queue
waits_and_retries = refl

get_instance_for_model-IsSettled_example :
    IsSettled 0
      (get_instance_for_model true request "old" 1
        (refused max_instances_node)
        (full ∷ failing ∷ serving ∷ [])).0
      (get_instance_for_model true request "old" 1
        (refused max_instances_node)
        (full ∷ failing ∷ serving ∷ [])).1
get_instance_for_model-IsSettled_example =
    get_instance_for_model-IsSettled request "old" 1 (refused max_instances_node)
      (full ∷ failing ∷ serving ∷ [])

get_instance_for_model-Recovers_example :
    Recovers
      (get_instance_for_model true request "old" 1
        (refused max_instances_node)
        (failing ∷ failing ∷ failing ∷ failing ∷ [])).0
      (get_instance_for_model true request "old" 1
        (refused max_instances_node)
        (failing ∷ failing ∷ failing ∷ failing ∷ [])).1
get_instance_for_model-Recovers_example =
    get_instance_for_model-Recovers request "old" 1 (refused max_instances_node)
      (failing ∷ failing ∷ failing ∷ failing ∷ [])

get_instance_for_model-ends_example :
    Stops (get_instance_for_model true request "old" 1 (refused max_instances_node) (full ∷ [])) (
      get_instance_for_model true request "old" 1
        (refused max_instances_node)
        ((full ∷ []) ++ (late ∷ serving ∷ [])))
get_instance_for_model-ends_example =
    get_instance_for_model-ends request "old" 1 (refused max_instances_node) (full ∷ [])
      (serving ∷ []) late refl
