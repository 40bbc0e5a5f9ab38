-- ===== src/PortPool/Search.antt =====
-- What the search for a free port returns.
use llamesh.Prelude.{
  ℕ, zero, suc, ◌+◌, ◌-◌, ◌≤◌, ◌<◌, ◌≡◌, refl, ◌⊎◌, inl, inr, Bool, true, false, not, ◌&&◌, ◌||◌,
  Option, none, some, List, [], ◌∷◌, ◌++◌, arith, any, leb, ltb, eqb, Option-cases,
}
use llamesh.Prelude.Eq.{nat_key}
use llamesh.Prelude.Dict.{lookup-insert}
use llamesh.PortPool.{
  PortPool, PortRange, LlamaCppPorts, PortLease, Result, ok, err, no_available_ports, is_used,
  ports_from, first_free, first_in_ranges, find_port, or_nil, or_else, take_port,
  get_available_port,
}

-- The port occurs in the list.
abbrev pub listed : ℕ → List ℕ → Bool
listed p ports = any (eqb p) ports

-- The port lies in one of the inclusive ranges.
abbrev pub in_ranges : ℕ → List PortRange → Bool
in_ranges p ranges = any (λ r. leb r.start p && leb p r.end) ranges

-- The ports that the configuration offers.
abbrev pub offered : Option LlamaCppPorts → ℕ → Bool
offered none p = leb 10000 p && ltb p 20000
offered (some config) p = listed p (or_nil config.ports) || in_ranges p (or_nil config.ranges)

listed-ports_from :
    (p start count : ℕ) → listed p (ports_from start count) ≡ (leb start p && ltb p (start + count))
unfolding ports_from
listed-ports_from p start zero = ground arith
listed-ports_from p start (suc count) = ground (arith, listed-ports_from p (start + 1) count)

listed-append : (p : ℕ) (xs ys : List ℕ) → listed p (xs ++ ys) ≡ (listed p xs || listed p ys)
listed-append p [] ys = refl
listed-append p (x ∷ xs) ys = ground (arith, listed-append p xs ys)

abbrev range_ports : PortRange → List ℕ
range_ports r = ports_from r.start (r.end + 1 - r.start)

listed-range : (p : ℕ) (r : PortRange) → listed p (range_ports r) ≡ (leb r.start p && leb p r.end)
listed-range p r = ground (arith, listed-ports_from p r.start (r.end + 1 - r.start))

abbrev ephemeral : ℕ → List ℕ
ephemeral start = ports_from start (20000 - start) ++ ports_from 10000 (start - 10000)

-- The ephemeral order: from the random start upwards, then round to it from below.
listed-ephemeral :
    (p start : ℕ)
    → 10000 ≤ start
    → start < 20000
    → listed p (ephemeral start) ≡ (leb 10000 p && ltb p 20000)
listed-ephemeral p start lo hi = ground (
  arith,
  listed-append p (ports_from start (20000 - start)) (ports_from 10000 (start - 10000)),
  listed-ports_from p start (20000 - start),
  listed-ports_from p 10000 (start - 10000),
)

or_else-some : (o q : Option ℕ) (p : ℕ) → or_else o q ≡ some p → (o ≡ some p) ⊎ (q ≡ some p)
or_else-some none q p h = inr h
or_else-some (some x) q p h = inl h

or_else-none : (o q : Option ℕ) → or_else o q ≡ none → (o ≡ none) × (q ≡ none)
or_else-none none q h = (refl, h)
or_else-none (some x) q h = cc

module _ (is_port_available : ℕ → Bool) (pool : PortPool) where
  -- The port can be handed out now.
  abbrev pub is_free : ℕ → Bool
  is_free p = not (is_used pool p) && is_port_available p

  first_free-some :
      (ports : List ℕ) (p : ℕ)
      → first_free is_port_available pool ports ≡ some p
      → (listed p ports ≡ true) × (is_free p ≡ true)
  unfolding first_free
  first_free-some [] p h = cc
  first_free-some (q ∷ ports) p h = ground (arith, first_free-some ports p)

  first_free-none :
      (ports : List ℕ) (p : ℕ)
      → first_free is_port_available pool ports ≡ none
      → listed p ports ≡ true
      → is_free p ≡ false
  unfolding first_free
  first_free-none [] p h m = cc
  first_free-none (q ∷ ports) p h m = ground (arith, first_free-none ports p)

  first_in_ranges-some :
      (ranges : List PortRange) (p : ℕ)
      → first_in_ranges is_port_available pool ranges ≡ some p
      → (in_ranges p ranges ≡ true) × (is_free p ≡ true)
  unfolding first_in_ranges
  first_in_ranges-some [] p h = cc
  first_in_ranges-some (r ∷ ranges) p h =
      elim (or_else-some (first_free is_port_available pool (range_ports r))
        (first_in_ranges is_port_available pool ranges) p h) [
          | inl here ↦ ground (arith, first_free-some (range_ports r) p here, listed-range p r)
          | inr later ↦ ground (arith, first_in_ranges-some ranges p later)
        ]

  first_in_ranges-none :
      (ranges : List PortRange) (p : ℕ)
      → first_in_ranges is_port_available pool ranges ≡ none
      → in_ranges p ranges ≡ true
      → is_free p ≡ false
  unfolding first_in_ranges
  first_in_ranges-none [] p h m = cc
  first_in_ranges-none (r ∷ ranges) p h m =
      let both =
        or_else-none (first_free is_port_available pool (range_ports r))
          (first_in_ranges is_port_available pool ranges) h in
      ground (
        arith,
        first_free-none (range_ports r) p both.0,
        listed-range p r,
        first_in_ranges-none ranges p both.1,
      )

  module _ (random_start : ℕ) (lo : 10000 ≤ random_start) (hi : random_start < 20000) where
    find_port-some :
        (config : Option LlamaCppPorts) (p : ℕ)
        → find_port is_port_available random_start pool config ≡ some p
        → (offered config p ≡ true) × (is_free p ≡ true)
    unfolding find_port
    find_port-some none p h =
        ground (
          arith,
          first_free-some (ephemeral random_start) p h,
          listed-ephemeral p random_start lo hi,
        )
    find_port-some (some config) p h =
        elim (or_else-some (first_free is_port_available pool (or_nil config.ports))
          (first_in_ranges is_port_available pool (or_nil config.ranges)) p h) [
            | inl here ↦ ground (arith, first_free-some (or_nil config.ports) p here)
            | inr later ↦ ground (arith, first_in_ranges-some (or_nil config.ranges) p later)
          ]

    find_port-none :
        (config : Option LlamaCppPorts) (p : ℕ)
        → find_port is_port_available random_start pool config ≡ none
        → offered config p ≡ true
        → is_free p ≡ false
    unfolding find_port
    find_port-none none p h m =
        ground (
          arith,
          first_free-none (ephemeral random_start) p h,
          listed-ephemeral p random_start lo hi,
        )
    find_port-none (some config) p h m =
        let both =
          or_else-none (first_free is_port_available pool (or_nil config.ports))
            (first_in_ranges is_port_available pool (or_nil config.ranges)) h in
        ground (
          arith,
          first_free-none (or_nil config.ports) p both.0,
          first_in_ranges-none (or_nil config.ranges) p both.1,
        )

    -- What `get_available_port` promises of its outcome.
    abbrev pub Allocates : PortPool × Result PortLease → Type 0
    Allocates (after, ok lease) =
        (lease.armed ≡ true)
        × (offered pool.ports_config lease.port ≡ true)
        × (is_free lease.port ≡ true)
        × ((p : ℕ) → is_used after p ≡ (eqb lease.port p || is_used pool p))
        × (after.ports_config ≡ pool.ports_config)
    Allocates (after, err e) =
        (after ≡ pool)
        × (e ≡ no_available_ports)
        × ((p : ℕ) → offered pool.ports_config p ≡ true → is_free p ≡ false)

    used_after : (port p : ℕ) → is_used (take_port pool port) p ≡ (eqb port p || is_used pool p)
    used_after port p = ground (arith, lookup-insert port p tt pool.used_ports)

    -- For a random start in its range: either the search returns an armed lease on a port that
    -- the configuration offers (10000..20000 without one), that was unused and can be bound, and
    -- marks this port alone; or it fails, changes nothing, and no offered port was free.
    pub get_available_port-Allocates :
        Allocates (get_available_port is_port_available random_start pool)
    unfolding get_available_port
    get_available_port-Allocates =
        elim (Option-cases (find_port is_port_available random_start pool pool.ports_config)) [
          | inl e ↦ simp e (refl, refl, λ p. find_port-none pool.ports_config p e)
          | inr (port, e) ↦
              let found = find_port-some pool.ports_config port e in
              simp e (refl, found.0, found.1, used_after port, refl)
        ]
