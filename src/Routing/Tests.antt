-- ===== src/Routing/Tests.antt =====
-- Witnesses of the theorems on routing, and runs of the operations.
use llamesh.Prelude.{
  ℕ, ◌+◌, ◌-◌, ◌*◌, ◌≡◌, refl, min, String, true, false, some, List, [], ◌∷◌, arith, ltb,
}
use llamesh.Prelude.Dict.{lookup}
use llamesh.CircuitBreaker.{should_allow_sync}
use llamesh.CircuitBreaker.Circuit.{default_config}
use llamesh.Gossip.Peer.{PeerState}
use llamesh.Gossip.Address.{before}
use llamesh.Routing.{Router, find_peer_for_model, after, precedes}
use llamesh.Routing.Filter.{IsOrder, Picks, is_eligible, find_peer_for_model-Picks}
use llamesh.Routing.Score.{Floats}
use llamesh.Routing.Select.{Local, pending_of, select_best_node, score}
use llamesh.Routing.Forwards.{ForwardEvent, started, ended, after_forwards, after_forwards-Counted}
use llamesh.Routing.Best.{Chosen, select_best_node-Selected}

abbrev busy : PeerState
busy = record {
  node_id = "busy";
  address = "";
  address_from_source = true;
  version = "1";
  llama_cpp_version = "";
  last_seen = 100;
  started_at_unix = 0;
  gossip_epoch = 1;
  gossip_seq = 1;
  supported_models = "M:p" ∷ [];
  model_stats = [];
  active_instances = 2;
  max_instances = 4;
  current_requests = 3;
  available_vram = 10;
  available_sysmem = 10;
  llamesh_vram_mb = 0;
  llamesh_sysmem_mb = 0;
  external_vram_mb = 0;
  device_vram_used_mb = 0;
  device_vram_total_mb = 0;
  gpu_telemetry_available = false;
  max_vram = 100;
  max_sysmem = 100;
  total_queue_length = 5;
  ready = true;
  loaded_models = [];
}

abbrev free : PeerState
free = record busy { node_id = "free"; total_queue_length = 1 }

abbrev stale : PeerState
stale = record free { node_id = "stale"; last_seen = 0; total_queue_length = 0 }

abbrev router : Router
router = record {
  breaker = record { config = default_config; circuits = [] };
  contended = λ id. false;
  now = 5;
  now_unix = 105;
  gossip_interval_seconds = 5;
  node_id = "self";
}

abbrev same_case : String → String
same_case s = s

shorter_queue_is_found :
    find_peer_for_model same_case router (busy ∷ stale ∷ free ∷ []) "m:p" [] ≡ some free
unfolding find_peer_for_model should_allow_sync lookup
shorter_queue_is_found = refl

find_peer_for_model-Picks_example :
    Picks
      (is_eligible router [] "m" "p")
      (precedes same_case "m:p")
      (busy ∷ stale ∷ free ∷ [])
      (find_peer_for_model same_case router (busy ∷ stale ∷ free ∷ []) "m:p" [])
unfolding before after
find_peer_for_model-Picks_example =
    find_peer_for_model-Picks same_case router (busy ∷ stale ∷ free ∷ []) "m:p" []

-- Whole numbers in place of floating-point ones.
abbrev whole : Floats
whole = record {
  Float = ℕ;
  of_nat = λ n. n;
  of_bits = λ n. n;
  add = λ a b. a + b;
  sub = λ a b. a - b;
  mul = λ a b. a * b;
  minimum = min;
  lt = ltb;
}

abbrev own : Local
own = record {
  self_peer = record busy { node_id = "self" };
  can_serve = true;
  peer_pending_forwards = [];
  memory_estimate = (50, 50);
}

by_score : (key : PeerState → ℕ) → IsOrder PeerState (λ a b. ltb (key a) (key b))
by_score key = record {
  irrefl = λ x. ground arith;
  asym = λ x y h. ground arith;
  weak = λ x y z h k. ground arith;
}

select_best_node-Selected_example :
    Chosen whole router own "m" "p" []
      (busy ∷ free ∷ [])
      (select_best_node whole router own (busy ∷ free ∷ []) "m" "p" false [])
select_best_node-Selected_example =
    select_best_node-Selected whole router own "m" "p" [] (busy ∷ free ∷ []) false
      (by_score (score whole router own "m:p"))

abbrev forwards : List ForwardEvent
forwards = ended 0 ∷ ended 0 ∷ started "b" ∷ ended 0 ∷ started "a" ∷ started "a" ∷ []

after_forwards-Counted_example : pending_of (after_forwards forwards).1 "a" ≡ 1
unfolding after_forwards
after_forwards-Counted_example = after_forwards-Counted forwards "a"
