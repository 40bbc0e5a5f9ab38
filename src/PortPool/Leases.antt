-- ===== src/PortPool/Leases.antt =====
-- The life of the ports of one pool: every port that is marked used has one owner, which is a
-- lease, an instance, a cleanup task that a dropped lease left, or nobody (a cleanup that was
-- skipped for want of a runtime, which leaves the port marked).
use mathlib.Core.Path.{subst}
use llamesh.Prelude.{
  ℕ, ◌≤◌, ◌<◌, ◌≡◌, refl, ◌∙◌, sym, Bool, true, false, ◌||◌, Option, List, [], ◌∷◌, ◌++◌, arith,
  eqb, count_by, count_by-append, if◌then◌else◌,
}
use llamesh.Prelude.Eq.{nat_key}
use llamesh.Prelude.Dict.{lookup, lookup-insert, lookup-remove}
use llamesh.PortPool.{
  PortPool, PortLease, ok, LlamaCppPorts, new, is_used, give_back, get_available_port,
  reserve_specific_port, release_port, release, handoff, drop_lease,
}
use llamesh.PortPool.Search.{Allocates, get_available_port-Allocates}

pub data Owner : Type 0 where
  lease instance_of cleanup nobody : Owner

pub record Holding : Type 0 where
  pub owner : Owner
  pub port : ℕ

pub record Node : Type 0 where
  pub pool : PortPool
  pub holdings : List Holding

abbrev pub holds : Owner → ℕ → Holding
holds owner port = record { owner = owner; port = port }

abbrev pub lease_on : ℕ → PortLease
lease_on port = record { port = port; armed = true }

-- What the node does with ports. `xs` and `ys` are the other holdings, which may be any.
pub data Step : Node → Node → Type 0 where
  allocates :
      (n : Node) (is_port_available : ℕ → Bool) (random_start : ℕ) (after : PortPool)
      (l : PortLease)
      → 10000 ≤ random_start
      → random_start < 20000
      → get_available_port is_port_available random_start n.pool ≡ (after, ok l)
      → Step n (record { pool = after; holdings = holds lease l.port ∷ n.holdings })
  reserves :
      (n : Node) (port : ℕ) (after : PortPool) (l : PortLease)
      → reserve_specific_port n.pool port ≡ (after, ok l)
      → Step n (record { pool = after; holdings = holds lease l.port ∷ n.holdings })
  releases :
      (pool : PortPool) (xs ys : List Holding) (port : ℕ)
      → Step
          (record { pool = pool; holdings = xs ++ (holds lease port ∷ ys) })
          (record { pool = (release pool (lease_on port)).0; holdings = xs ++ ys })
  hands_off :
      (pool : PortPool) (xs ys : List Holding) (port : ℕ)
      → Step
          (record { pool = pool; holdings = xs ++ (holds lease port ∷ ys) })
          (record {
            pool = pool;
            holdings = xs ++ (holds instance_of (handoff (lease_on port)).1 ∷ ys);
          })
  drops :
      (pool : PortPool) (xs ys : List Holding) (port : ℕ) (has_runtime : Bool)
      → Step
          (record { pool = pool; holdings = xs ++ (holds lease port ∷ ys) })
          (record {
            pool = (drop_lease false has_runtime pool (lease_on port)).0;
            holdings = xs ++ ys;
          })
  drops_contended :
      (pool : PortPool) (xs ys : List Holding) (port : ℕ) (has_runtime : Bool)
      → Step
          (record { pool = pool; holdings = xs ++ (holds lease port ∷ ys) })
          (record {
            pool = (drop_lease true has_runtime pool (lease_on port)).0;
            holdings = xs ++ (holds (if has_runtime then cleanup else nobody) port ∷ ys);
          })
  cleans_up :
      (pool : PortPool) (xs ys : List Holding) (port : ℕ)
      → Step
          (record { pool = pool; holdings = xs ++ (holds cleanup port ∷ ys) })
          (record { pool = release_port pool port; holdings = xs ++ ys })
  instance_stops :
      (pool : PortPool) (xs ys : List Holding) (port : ℕ)
      → Step
          (record { pool = pool; holdings = xs ++ (holds instance_of port ∷ ys) })
          (record { pool = release_port pool port; holdings = xs ++ ys })

pub data Reach (start : Node) : Node → Type 0 where
  here : Reach start start
  next : {m n : Node} → Reach start m → Step m n → Reach start n

-- How often a port is held.
abbrev pub times_held : ℕ → List Holding → ℕ
times_held p = count_by (λ h. eqb h.port p)

-- A port is held once if it is marked used, and else not at all.
abbrev pub IsExclusive : Node → Type 0
IsExclusive n = (p : ℕ) → times_held p n.holdings ≡ (if is_used n.pool p then 1 else 0)

-- A port that was free is taken.
taken :
    (pool after : PortPool) (hs : List Holding) (port : ℕ)
    → ((p : ℕ) → times_held p hs ≡ (if is_used pool p then 1 else 0))
    → is_used pool port ≡ false
    → ((p : ℕ) → is_used after p ≡ (eqb port p || is_used pool p))
    → (p : ℕ) → times_held p (holds lease port ∷ hs) ≡ (if is_used after p then 1 else 0)
taken pool after hs port all free marks p = ground (arith, all p, marks p)

-- A holding changes hands.
passed_on :
    (xs ys : List Holding) (a b : Owner) (port p : ℕ)
    → times_held p (xs ++ (holds a port ∷ ys)) ≡ times_held p (xs ++ (holds b port ∷ ys))
passed_on xs ys a b port p = omega (
  arith,
  count_by-append (λ (h : Holding). eqb h.port p) xs (holds a port ∷ ys),
  count_by-append (λ (h : Holding). eqb h.port p) xs (holds b port ∷ ys),
)

-- A holding ends, and its port is given back.
given :
    (pool : PortPool) (xs ys : List Holding) (a : Owner) (port : ℕ)
    → ((p : ℕ) → times_held p (xs ++ (holds a port ∷ ys)) ≡ (if is_used pool p then 1 else 0))
    → (p : ℕ) → times_held p (xs ++ ys) ≡ (if is_used (give_back pool port) p then 1 else 0)
given pool xs ys a port all p = ground (
  arith,
  all p,
  count_by-append (λ (h : Holding). eqb h.port p) xs (holds a port ∷ ys),
  count_by-append (λ (h : Holding). eqb h.port p) xs ys,
  lookup-remove port p pool.used_ports,
)

allocated :
    (pool : PortPool) (avail : ℕ → Bool) (start : ℕ)
    → 10000 ≤ start
    → start < 20000
    → (after : PortPool) (l : PortLease) → get_available_port avail start pool ≡ (after, ok l)
    → (is_used pool l.port ≡ false) × ((p : ℕ) → is_used after p ≡ (eqb l.port p || is_used pool p))
allocated pool avail start lo hi after l e =
    let a =
      subst (λ r. Allocates avail pool start lo hi r) e
        (get_available_port-Allocates avail pool start lo hi) in
    (ground (arith, a.2), a.3)

reserved :
    (pool : PortPool) (port : ℕ) (after : PortPool) (l : PortLease)
    → reserve_specific_port pool port ≡ (after, ok l)
    → (is_used pool l.port ≡ false) × ((p : ℕ) → is_used after p ≡ (eqb l.port p || is_used pool p))
unfolding reserve_specific_port
reserved pool port after l e =
    (ground arith, λ p. ground (arith, lookup-insert port p tt pool.used_ports))

Step-IsExclusive : {m n : Node} → Step m n → IsExclusive m → IsExclusive n
unfolding reserve_specific_port release handoff drop_lease release_port
Step-IsExclusive (allocates n avail start after l lo hi e) all =
    let found = allocated n.pool avail start lo hi after l e in
    taken n.pool after n.holdings l.port all found.0 found.1
Step-IsExclusive (reserves n port after l e) all =
    let found = reserved n.pool port after l e in
    taken n.pool after n.holdings l.port all found.0 found.1
Step-IsExclusive (releases pool xs ys port) all = given pool xs ys lease port all
Step-IsExclusive (hands_off pool xs ys port) all =
    λ p. sym (passed_on xs ys lease instance_of port p) ∙ all p
Step-IsExclusive (drops pool xs ys port has_runtime) all = given pool xs ys lease port all
Step-IsExclusive (drops_contended pool xs ys port true) all =
    λ p. sym (passed_on xs ys lease cleanup port p) ∙ all p
Step-IsExclusive (drops_contended pool xs ys port false) all =
    λ p. sym (passed_on xs ys lease nobody port p) ∙ all p
Step-IsExclusive (cleans_up pool xs ys port) all = given pool xs ys cleanup port all
Step-IsExclusive (instance_stops pool xs ys port) all = given pool xs ys instance_of port all

-- From a new pool, through any sequence of allocations, reservations, releases, handoffs, drops
-- and cleanups, no port is ever held twice, and a port is marked used exactly while it is held.
pub Reach-IsExclusive :
    (config : Option LlamaCppPorts) {n : Node}
    → Reach (record { pool = new config; holdings = [] }) n
    → IsExclusive n
unfolding new lookup
Reach-IsExclusive config here = λ p. refl
Reach-IsExclusive config (next path step) = Step-IsExclusive step (Reach-IsExclusive config path)
