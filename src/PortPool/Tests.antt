-- ===== src/PortPool/Tests.antt =====
-- The theorems on the port pool at concrete inputs.
use llamesh.Prelude.{ℕ, ◌≡◌, refl, Bool, true, Option, some, [], ◌∷◌, arith, eqb, not}
use llamesh.Prelude.Eq.{nat_key}
use llamesh.Prelude.Dict.{lookup}
use llamesh.PortPool.{
  PortPool, take_port, LlamaCppPorts, new, ok, get_available_port, reserve_specific_port, handoff,
}
use llamesh.PortPool.Search.{Allocates, get_available_port-Allocates}
use llamesh.PortPool.Leases.{
  here, next, reserves, hands_off, IsExclusive, holds, instance_of, lease_on, Reach-IsExclusive,
}

abbrev config : Option LlamaCppPorts
config = some (record {
  ports = some (8080 ∷ 8081 ∷ []);
  ranges = some (record { start = 9000; end = 9002 } ∷ []);
})

-- 8080 is leased already, and 8081 is taken by another program.
abbrev pool : PortPool
pool = record { used_ports = (8080, tt) ∷ []; ports_config = config }

abbrev bindable : ℕ → Bool
bindable p = not (eqb p 8081)

get_available_port-Allocates_example :
    Allocates bindable pool 12000
      (omega arith)
      (omega arith)
      (get_available_port bindable 12000 pool)
get_available_port-Allocates_example =
    get_available_port-Allocates bindable pool 12000 (omega arith) (omega arith)

takes_from_range :
    (get_available_port bindable 12000 pool).1 ≡ ok (record { port = 9000; armed = true })
unfolding get_available_port lookup
takes_from_range = refl

-- A port is reserved and handed to an instance.
Reach-IsExclusive_example :
    IsExclusive
      (record { pool = take_port (new config) 9000; holdings = holds instance_of 9000 ∷ [] })
unfolding reserve_specific_port handoff new lookup
Reach-IsExclusive_example = Reach-IsExclusive config (
    next (next here (reserves _ 9000 (take_port (new config) 9000) (lease_on 9000) refl))
      (hands_off (take_port (new config) 9000) [] [] 9000))
