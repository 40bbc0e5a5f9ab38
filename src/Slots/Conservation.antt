-- ===== src/Slots/Conservation.antt =====
-- src/node_state/mod.rs: no slot is lost, made up or released twice, under every interleaving.
use llamesh.Prelude.{
  ℕ, ◌+◌, ◌≡◌, ◌≤◌, ◌<◌, ◌⊎◌, inr, refl, true, not, ◌||◌, List, [], ◌∷◌, arith, eqb, eqb_iff,
  if◌then◌else◌,
}
use llamesh.Prelude.Buckets.{occurs, occurs-keep, times}
use llamesh.Slots.{
  Instance, update, claim, release, drain_for_update, drain_for_memory, drain_for_competitor,
  cancel_drain,
}
use llamesh.Slots.Life.{
  World, Step, Reach, here, next, attaches, spawns, releases, loads, dies, updates, recovers,
  yields, resumes, removes, take_one, empty_world,
}

-- The count of each instance is the number of its holders, and within the limit; an instance that
-- does not exist has none; and a drain for a competitor is a drain.
pub record IsConserved (max_concurrent : ℕ) (w : World) : Type 0 where
  pub counted : (i : ℕ) → (w.heap i).in_flight_requests ≡ times i w.holders
  pub limited : (i : ℕ) → (max_concurrent ≡ 0) ⊎ ((w.heap i).in_flight_requests ≤ max_concurrent)
  pub unborn : (i : ℕ) → w.created ≤ i → times i w.holders ≡ 0
  pub old : (i : ℕ) → occurs i w.mapped ≡ true → i < w.created
  pub drains : (i : ℕ) → (not (w.heap i).draining_for_competitor || (w.heap i).draining) ≡ true

times-take_one :
    (i j : ℕ) (xs : List ℕ)
    → occurs i xs ≡ true
    → times j (take_one i xs) + (if eqb j i then 1 else 0) ≡ times j xs
times-take_one i j [] h = ground arith
times-take_one i j (x ∷ xs) h =
    ground (arith, times-take_one i j xs, eqb_iff i x, eqb_iff j i, eqb_iff j x)

-- A step that changes one instance and not its count.
module _ (max_concurrent : ℕ) (w : World) (i : ℕ) (inst : Instance)
    (c : IsConserved max_concurrent w)
    (same : inst.in_flight_requests ≡ (w.heap i).in_flight_requests)
    (sound : (not inst.draining_for_competitor || inst.draining) ≡ true) where
  changes-IsConserved : IsConserved max_concurrent (record w { heap = update w.heap i inst })
  changes-IsConserved = record {
    counted = λ j. ground (arith, c.counted j, eqb_iff j i);
    limited = λ j. ground (arith, c.limited j, eqb_iff j i);
    unborn = c.unborn;
    old = c.old;
    drains = λ j. ground (arith, c.drains j);
  }

Step-IsConserved :
    (max_concurrent : ℕ) {v w : World}
    → Step max_concurrent v w
    → IsConserved max_concurrent v
    → IsConserved max_concurrent w
unfolding claim release drain_for_update drain_for_memory drain_for_competitor cancel_drain
Step-IsConserved m (attaches w i now found taken) c = record {
  counted = λ j. ground (arith, c.counted j, eqb_iff j i);
  limited = λ j. ground (arith, c.limited j, eqb_iff j i);
  unborn = λ j h. ground (arith, c.unborn j, c.old i found, eqb_iff j i);
  old = c.old;
  drains = λ j. ground (arith, c.drains j, c.drains i, eqb_iff j i);
}
Step-IsConserved m (spawns w model profile args_hash reserve across now) c = record {
  counted = λ j. ground (arith, c.counted j, c.unborn w.created, eqb_iff j w.created);
  limited = λ j. ground (arith, c.limited j, eqb_iff j w.created);
  unborn = λ j h. ground (arith, c.unborn j, eqb_iff j w.created);
  old = λ j h. ground (arith, c.old j, eqb_iff j w.created);
  drains = λ j. ground (arith, c.drains j, eqb_iff j w.created);
}
Step-IsConserved m (releases w i held) c = record {
  counted = λ j. ground (arith, c.counted j, times-take_one i j w.holders held, eqb_iff j i);
  limited = λ j. ground (arith, c.limited j, c.limited i, eqb_iff j i);
  unborn = λ j h. ground (arith, c.unborn j, times-take_one i j w.holders held);
  old = c.old;
  drains = λ j. ground (arith, c.drains j, c.drains i, eqb_iff j i);
}
Step-IsConserved m (loads w i status) c = changes-IsConserved m w i _ c refl (c.drains i)
Step-IsConserved m (dies w i) c = changes-IsConserved m w i _ c refl (c.drains i)
Step-IsConserved m (updates w i) c = changes-IsConserved m w i _ c refl refl
Step-IsConserved m (recovers w i) c = changes-IsConserved m w i _ c refl refl
Step-IsConserved m (yields w i a b d e) c =
    changes-IsConserved m w i (drain_for_competitor a b d e (w.heap i)) c (ground arith)
      (ground (arith, c.drains i))
Step-IsConserved m (resumes w i has) c =
    changes-IsConserved m w i (cancel_drain has (w.heap i)).0 c (ground arith)
      (ground (arith, c.drains i))
Step-IsConserved m (removes w i) c = record {
  counted = c.counted;
  limited = c.limited;
  unborn = c.unborn;
  old = λ j h. c.old j (ground (arith, h, occurs-keep (λ x. not (eqb x i)) j w.mapped));
  drains = c.drains;
}

-- At every moment of every run, the count of requests in flight of each instance is the number of
-- requests and guards that hold a slot of it, and never above the limit of an instance, where there
-- is one; an instance that was not spawned yet has no holder and is not in the map; and an instance
-- that drains for a competitor drains.
pub Reach-IsConserved :
    {max_concurrent : ℕ} {w : World}
    → Reach max_concurrent empty_world w
    → IsConserved max_concurrent w
Reach-IsConserved here = record {
  counted = λ i. refl;
  limited = λ i. inr (omega arith);
  unborn = λ i h. refl;
  old = λ i h. ground arith;
  drains = λ i. refl;
}
Reach-IsConserved {max_concurrent} (next r s) =
    Step-IsConserved max_concurrent s (Reach-IsConserved r)
