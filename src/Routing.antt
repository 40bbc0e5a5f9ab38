-- ===== src/Routing.antt =====
-- src/node_state/mod.rs: which node a request goes to. The records of the peers are those that
-- gossip keeps, the filter on their circuits is the circuit breaker's. Whether its lock could be
-- taken is a parameter, and so are the Unicode case tables and floating-point numbers.
pub mod Filter
pub mod Best
pub mod Score
pub mod Select
pub mod Forwards
pub mod Tests
use Prim.Native.Char.{code}
use Prim.Native.String.{◌++◌, [] as empty, ◌∷◌ as push}
use llamesh.Prelude.{
  ℕ, ◌+◌, ◌-◌, ◌*◌, ◌/◌, min, max, String, Bool, true, false, not, ◌&&◌, ◌||◌, Option, none, some,
  List, [], ◌∷◌, any, keep, map, leb, ltb, eqb, is_some, if◌then◌else◌,
}
use llamesh.Prelude.Eq.{string_key, ◌==◌}
use llamesh.Prelude.Dict.{Dict, lookup}
use llamesh.Prelude.Word.{saturating_mul, saturating_add}
use llamesh.CircuitBreaker.{CircuitBreaker, should_allow_sync}
use llamesh.Gossip.Peer.{PeerState}
use llamesh.Gossip.Address.{before}

-- `char::to_ascii_lowercase`, on the code.
abbrev pub ascii_lower : ℕ → ℕ
ascii_lower c = if leb 65 c && leb c 90 then c + 32 else c

unfoldable pub eq_ignore_ascii_case : String → String → Bool
eq_ignore_ascii_case empty empty = true
eq_ignore_ascii_case empty (push d t) = false
eq_ignore_ascii_case (push c s) empty = false
eq_ignore_ascii_case (push c s) (push d t) =
    eqb (ascii_lower (code c)) (ascii_lower (code d)) && eq_ignore_ascii_case s t

unfoldable pub peer_supports_profile : PeerState → String → String → Bool
unfolding eq_ignore_ascii_case
peer_supports_profile peer model_name profile_id =
    any
      (λ (entry : String).
        eq_ignore_ascii_case entry (model_name ++ ":" ++ profile_id)
        || (eq_ignore_ascii_case entry model_name && eq_ignore_ascii_case profile_id "default"))
      peer.supported_models

-- What a call reads besides the peers: the breaker with whether its lock is contended at a peer, the
-- clock, the gossip interval and the name of the node.
pub record Router : Type 0 where
  pub breaker : CircuitBreaker
  pub contended : String → Bool
  pub now : ℕ  -- the breaker's clock
  pub now_unix : ℕ
  pub gossip_interval_seconds : ℕ
  pub node_id : String

abbrev pub allows : Router → String → Bool
allows r id = should_allow_sync r.breaker (r.contended id) id r.now

-- `now - last_seen` is within three gossip intervals, and 15 seconds at least.
abbrev pub is_recent : Router → PeerState → Bool
is_recent r peer =
    leb (r.now_unix - peer.last_seen) (max (saturating_mul r.gossip_interval_seconds 3) 15)

abbrev pub is_empty : List String → Bool
is_empty [] = true
is_empty (s ∷ ss) = false

unfoldable pub has_forwarding_target : Router → List PeerState → Bool
has_forwarding_target r peers =
    any
      (λ (peer : PeerState).
        not (peer.node_id == r.node_id)
        && is_recent r peer
        && peer.ready
        && not (is_empty peer.supported_models)
        && allows r peer.node_id)
      peers

-- `split(sep).nth(1)` with what follows it.
unfoldable pub after : ℕ → String → Option String
after sep empty = none
after sep (push c s) = let rest = after sep s in if eqb (code c) sep then some s else rest

abbrev pub base_model : String → String
base_model model_name = before 58 model_name

abbrev pub profile_id : String → String
profile_id model_name = elim (after 58 model_name) [ none ↦ "default" | some rest ↦ before 58 rest ]

abbrev pub excludes : List String → String → Bool
excludes excluded id = any (λ (e : String). e == id) excluded

-- The tests of the loop of `find_peer_for_model`, in its order.
unfoldable pub is_candidate : Router → List String → String → String → PeerState → Bool
unfolding peer_supports_profile
is_candidate r excluded model profile peer =
    if not (is_recent r peer)
    then false
    else if not peer.ready
    then false
    else if not (allows r peer.node_id)
    then false
    else if excludes excluded peer.node_id
    then false
    else peer_supports_profile peer model profile

-- `sort_by` is stable: an element goes before the first one that does not have to precede it.
unfoldable pub insert_by {ℓ} : {A : Type ℓ} → (A → A → Bool) → A → List A → List A
insert_by precedes x [] = x ∷ []
insert_by precedes x (y ∷ ys) =
    let rest = insert_by precedes x ys in if precedes y x then y ∷ rest else x ∷ y ∷ ys

unfoldable pub sort_by {ℓ} : {A : Type ℓ} → (A → A → Bool) → List A → List A
unfolding insert_by
sort_by precedes [] = []
sort_by precedes (x ∷ xs) = insert_by precedes x (sort_by precedes xs)

abbrev pub first {ℓ} : {A : Type ℓ} → List A → Option A
first [] = none
first (x ∷ xs) = some x

abbrev pub is_loaded : (String → String) → String → PeerState → Bool
is_loaded to_lowercase key peer =
    any (λ (m : String). to_lowercase m == to_lowercase key) peer.loaded_models

-- The comparison of `find_peer_for_model` is `Less`.
abbrev pub precedes : (String → String) → String → PeerState → PeerState → Bool
precedes to_lowercase key a b =
    if is_loaded to_lowercase key a
    then not (is_loaded to_lowercase key b) || ltb a.total_queue_length b.total_queue_length
    else not (is_loaded to_lowercase key b) && ltb a.total_queue_length b.total_queue_length

-- `peers` are the values of the map, in the order of its iteration.
unfoldable pub find_peer_for_model :
    (String → String) → Router → List PeerState → String → List String → Option PeerState
unfolding before after is_candidate sort_by
find_peer_for_model to_lowercase r peers model_name excluded = first (
    sort_by (precedes to_lowercase (base_model model_name ++ ":" ++ profile_id model_name))
      (keep (is_candidate r excluded (base_model model_name) (profile_id model_name)) peers))
