-- ===== src/CircuitBreaker/Interleaving.antt =====
-- `PeerCircuit::try_claim_probe` under the read lock: any number of tasks run it on one circuit at
-- once, each in three atomic actions (read the clock, load `last_probe_ms`, compare and exchange).
use llamesh.Prelude.{
  ℕ, ◌+◌, ◌≤◌, ◌<◌, ◌≡◌, refl, Bool, true, false, List, [], ◌∷◌, inl, inr, Bool-cases, arith, eqb,
  if_both, if◌then◌else◌,
}
use llamesh.CircuitBreaker.Circuit.{
  PeerCircuit, probe_clock, is_paced, compare_exchange, try_claim_probe,
}

-- Where a task stands, with the clock reading and the loaded stamp that it holds.
pub data Phase : Type 0 where
  outside : Phase
  timed : ℕ → Phase
  loaded : ℕ → ℕ → Phase
  finished : Bool → Phase

-- `claims` logs the readings of the probes that won, newest first.
pub record Race : Type 0 where
  pub circuit : PeerCircuit
  pub phase : ℕ → Phase
  pub claims : List ℕ

abbrev move : (ℕ → Phase) → ℕ → Phase → ℕ → Phase
move phase i p j = if eqb i j then p else phase j

abbrev log_if : Bool → ℕ → List ℕ → List ℕ
log_if won now_ms claims = if won then now_ms ∷ claims else claims

-- One action of one task; the clock may show each task any time.
pub data Step (interval_ms : ℕ) : Race → Race → Type 0 where
  reads :
      (r : Race) (i now : ℕ)
      → Step interval_ms r (record r { phase = move r.phase i (timed (probe_clock r.circuit now)) })
  loads :
      (r : Race) (i now_ms : ℕ)
      → r.phase i ≡ timed now_ms
      → Step interval_ms r
          (record r { phase = move r.phase i (loaded now_ms r.circuit.last_probe_ms) })
  gives_up :
      (r : Race) (i now_ms last : ℕ)
      → r.phase i ≡ loaded now_ms last
      → is_paced last now_ms interval_ms ≡ true
      → Step interval_ms r (record r { phase = move r.phase i (finished false) })
  swaps :
      (r : Race) (i now_ms last : ℕ)
      → r.phase i ≡ loaded now_ms last
      → is_paced last now_ms interval_ms ≡ false
      → Step interval_ms r (record {
        circuit = (compare_exchange r.circuit last now_ms).0;
        phase = move r.phase i (finished (compare_exchange r.circuit last now_ms).1);
        claims = log_if (compare_exchange r.circuit last now_ms).1 now_ms r.claims;
      })

pub data Reach (interval_ms : ℕ) (start : Race) : Race → Type 0 where
  here : Reach interval_ms start start
  next : {r s : Race} → Reach interval_ms start r → Step interval_ms r s → Reach interval_ms start s

-- Each claim is at least an interval after the one before it.
abbrev pub Spaced : ℕ → List ℕ → Type 0
Spaced interval_ms [] = Unit {0}
Spaced interval_ms (a ∷ []) = Unit {0}
Spaced interval_ms (a ∷ b ∷ rest) = (b + interval_ms ≤ a) × Spaced interval_ms (b ∷ rest)

abbrev Newest : List ℕ → ℕ → Type 0
Newest [] stamp = stamp ≡ 0
Newest (a ∷ rest) stamp = (stamp ≡ a) × (0 < a)

abbrev IsTimed : Phase → Type 0
IsTimed (timed now_ms) = 0 < now_ms
IsTimed (loaded now_ms last) = 0 < now_ms
IsTimed _ = Unit {0}

record Inv (interval_ms : ℕ) (r : Race) : Type 0 where
  spaced : Spaced interval_ms r.claims
  newest : Newest r.claims r.circuit.last_probe_ms
  timed_at : (i : ℕ) → IsTimed (r.phase i)

log_claim :
    (interval_ms now_ms last : ℕ) (c : PeerCircuit) (claims : List ℕ)
    → 0 < interval_ms
    → 0 < now_ms
    → is_paced last now_ms interval_ms ≡ false
    → Spaced interval_ms claims
    → Newest claims c.last_probe_ms
    → Spaced interval_ms (log_if (compare_exchange c last now_ms).1 now_ms claims)
      × Newest
          (log_if (compare_exchange c last now_ms).1 now_ms claims)
          (compare_exchange c last now_ms).0.last_probe_ms
unfolding is_paced compare_exchange
log_claim interval_ms now_ms last c [] g t p s n = ground arith
log_claim interval_ms now_ms last c (a ∷ rest) g t p s n = ground arith

moved :
    (phase : ℕ → Phase) (i : ℕ) (p : Phase)
    → ((j : ℕ) → IsTimed (phase j))
    → IsTimed p
    → (j : ℕ) → IsTimed (move phase i p j)
moved phase i p all one j = if_both IsTimed (eqb i j) p (phase j) one (all j)

probe_clock-pos : (c : PeerCircuit) (now : ℕ) → 0 < probe_clock c now
unfolding probe_clock
probe_clock-pos c now = omega arith

Step-Inv :
    (interval_ms : ℕ) {r s : Race}
    → 0 < interval_ms
    → Step interval_ms r s
    → Inv interval_ms r
    → Inv interval_ms s
Step-Inv interval_ms g (reads r i now) v = record {
  spaced = v.spaced;
  newest = v.newest;
  timed_at = moved r.phase i _ v.timed_at (probe_clock-pos r.circuit now);
}
Step-Inv interval_ms g (loads r i now_ms e) v = record {
  spaced = v.spaced;
  newest = v.newest;
  timed_at = moved r.phase i _ v.timed_at (rw e at (v.timed_at i));
}
Step-Inv interval_ms g (gives_up r i now_ms last e p) v = record {
  spaced = v.spaced;
  newest = v.newest;
  timed_at = moved r.phase i _ v.timed_at tt;
}
Step-Inv interval_ms g (swaps r i now_ms last e p) v =
    let logged =
      log_claim interval_ms now_ms last r.circuit r.claims g (rw e at (v.timed_at i)) p v.spaced
        v.newest in
    record { spaced = logged.0; newest = logged.1; timed_at = moved r.phase i _ v.timed_at tt }

Reach-Inv :
    (interval_ms : ℕ) {start r : Race}
    → 0 < interval_ms
    → Inv interval_ms start
    → Reach interval_ms start r
    → Inv interval_ms r
Reach-Inv interval_ms g v here = v
Reach-Inv interval_ms g v (next path step) =
    Step-Inv interval_ms g step (Reach-Inv interval_ms g v path)

abbrev pub race_start : PeerCircuit → Race
race_start c = record { circuit = c; phase = λ i. outside; claims = [] }

-- With gating on, and from a circuit whose pacing is reset, however the tasks interleave and
-- whatever their clocks show, any two probes admitted in a row are an interval apart.
pub race-Spaced :
    (interval_ms : ℕ) (c : PeerCircuit) {r : Race}
    → 0 < interval_ms
    → c.last_probe_ms ≡ 0
    → Reach interval_ms (race_start c) r
    → Spaced interval_ms r.claims
race-Spaced interval_ms c g z path =
    (Reach-Inv interval_ms g (record { spaced = tt; newest = z; timed_at = λ i. tt }) path).spaced

abbrev solo_loaded : PeerCircuit → ℕ → Race
solo_loaded c now = record (race_start c) {
  phase =
      move (move (λ j. outside) 0 (timed (probe_clock c now))) 0
        (loaded (probe_clock c now) c.last_probe_ms);
}

solo_loads :
    (interval_ms : ℕ) (c : PeerCircuit) (now : ℕ)
    → Reach interval_ms (race_start c) (solo_loaded c now)
solo_loads interval_ms c now =
    next (next here (reads (race_start c) 0 now)) (loads _ 0 (probe_clock c now) refl)

-- One task that runs alone does what `try_claim_probe` does in one step, gating on.
pub solo_run :
    (interval_ms : ℕ) (c : PeerCircuit) (now : ℕ)
    → 0 < interval_ms
    → (r : Race) × Reach interval_ms (race_start c) r
      × (r.circuit ≡ (try_claim_probe c interval_ms now).0)
      × (r.phase 0 ≡ finished (try_claim_probe c interval_ms now).1)
unfolding try_claim_probe
solo_run interval_ms c now g =
    elim (Bool-cases (is_paced c.last_probe_ms (probe_clock c now) interval_ms)) [
      | inl paced ↦ (
        _,
        next (solo_loads interval_ms c now) (gives_up _ 0 (probe_clock c now) _ refl paced),
        ground arith,
        ground arith,
      )
      | inr free ↦ (
        _,
        next (solo_loads interval_ms c now) (swaps _ 0 (probe_clock c now) _ refl free),
        ground arith,
        ground arith,
      )
    ]
