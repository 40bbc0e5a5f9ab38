-- ===== src/Wedge/Stopping.antt =====
-- src/node_state/mod.rs, `kill_wedged_instance`: the recheck under the write lock. The retirement
-- that follows (stopping the process, releasing its port) is not modelled.
use llamesh.Prelude.{
  ℕ, ◌+◌, ◌<◌, ◌≡◌, refl, ◌⊎◌, inl, inr, Bool, false, not, ◌&&◌, Option, none, some, String, arith,
  ltb, eqb, Option-cases, Bool-cases, if◌then◌else◌,
}
use llamesh.Prelude.Eq.{string_key, ◌==◌}
use llamesh.Prelude.Dict.{Dict, lookup, remove, lookup-remove}
use llamesh.Wedge.{Kill}

-- What the recheck reads of an instance.
pub record Instance : Type 0 where
  pub in_flight_requests : ℕ
  pub streams_awaiting_downstream : ℕ
  pub pid : Option ℕ
  pub last_activity : ℕ

pub record Node : Type 0 where
  pub instances : Dict String Instance
  pub wedged_instances_killed_total : ℕ

abbrev has_pid : Option ℕ → ℕ → Bool
has_pid none expected = false
has_pid (some pid) expected = eqb pid expected

abbrev pub still_wedged : Instance → Kill → Bool
still_wedged inst k =
    ltb inst.streams_awaiting_downstream inst.in_flight_requests
    && (has_pid inst.pid k.pid && eqb inst.last_activity k.last_activity)

abbrev kill_found : Node → Kill → Option Instance → Node × Option Instance
kill_found n k none = (n, none)
kill_found n k (some inst) = if not (still_wedged inst k) then (n, none) else (
  record {
    instances = remove k.id n.instances;
    wedged_instances_killed_total = n.wedged_instances_killed_total + 1;
  },
  some inst,
)

-- The node without the instance, and the instance to retire, if it was still wedged.
unfoldable pub kill_wedged_instance : Node → Kill → Node × Option Instance
kill_wedged_instance n k = kill_found n k (lookup k.id n.instances)

-- The recheck either retires the instance under that id, which still holds a slot that is not
-- waiting on its client, is the process that was sampled and has taken no new work since, counts
-- it, and leaves every other instance; or it changes nothing, and the instance is gone, respawned,
-- took new work or waits on its clients.
pub kill_lem :
    (n : Node) (k : Kill) (other : String)
    → ((inst : Instance) × ((kill_wedged_instance n k).1 ≡ some inst)
        × (lookup k.id n.instances ≡ some inst)
        × (inst.streams_awaiting_downstream < inst.in_flight_requests)
        × (inst.pid ≡ some k.pid)
        × (inst.last_activity ≡ k.last_activity)
        × (lookup other (kill_wedged_instance n k).0.instances
            ≡ (if k.id == other then none else lookup other n.instances))
        × ((kill_wedged_instance n k).0.wedged_instances_killed_total
            ≡ n.wedged_instances_killed_total + 1))
      ⊎ ((kill_wedged_instance n k ≡ (n, none))
          × ((inst : Instance) → lookup k.id n.instances ≡ some inst → still_wedged inst k ≡ false))
unfolding kill_wedged_instance
kill_lem n k other = elim (Option-cases (lookup k.id n.instances)) [
  | inl e ↦ rw (e, kill_wedged_instance) (inr (refl, λ inst h. cc))
  | inr (inst, e) ↦ elim (Bool-cases (still_wedged inst k)) [
    | inl wedged ↦
        simp (e, wedged)
          (inl (
            inst,
            refl,
            refl,
            ground arith,
            ground arith,
            ground arith,
            lookup-remove k.id other n.instances,
            refl,
          ))
    | inr moved_on ↦ simp (e, moved_on) (inr (refl, λ i h. ground arith))
  ]
]
