-- ===== src/Routing/Filter.antt =====
-- src/node_state/mod.rs: what `find_peer_for_model` promises of the peer that it chooses.
use Prim.Native.String.{◌++◌}
use mathlib.Core.Path.{subst}
use llamesh.Prelude.{
  ◌≡◌, refl, ap, ◌∙◌, ◌⊎◌, inl, inr, String, Bool, true, false, not, ◌&&◌, Option, none, some, List,
  [], ◌∷◌, All, keep, arith, Bool-cases,
}
use llamesh.Gossip.Peer.{PeerState}
use llamesh.Routing.{
  Router, allows, excludes, is_recent, is_candidate, peer_supports_profile, insert_by, sort_by,
  first, precedes, find_peer_for_model, base_model, profile_id,
}

-- A strict weak order: what `sort_by` asks of a comparison.
pub record IsOrder (A : Type 0) (lt : A → A → Bool) : Type 0 where
  pub irrefl : (x : A) → lt x x ≡ false
  pub asym : (x y : A) → lt x y ≡ true → lt y x ≡ false
  pub weak : (x y z : A) → lt y x ≡ false → lt z y ≡ false → lt z x ≡ false

pub data Among {A : Type 0} (x : A) : List A → Type 0 where
  here : {y : A} {xs : List A} → x ≡ y → Among x (y ∷ xs)
  there : {y : A} {xs : List A} → Among x xs → Among x (y ∷ xs)

module _ {A : Type 0} where
  -- The first element of a sorted list, of the elements that were sorted.
  abbrev pub IsFirst : (A → A → Bool) → List A → Option A → Type 0
  IsFirst lt xs none = xs ≡ []
  IsFirst lt xs (some x) = Among x xs × All (λ y. lt y x ≡ false) xs

  -- The chosen element passes the test, stands in the list, and no element that passes precedes it;
  -- where none is chosen, none passes.
  abbrev pub Picks : (A → Bool) → (A → A → Bool) → List A → Option A → Type 0
  Picks test lt xs none = All (λ y. test y ≡ false) xs
  Picks test lt xs (some x) =
      (test x ≡ true) × Among x xs × All (λ y. (test y ≡ false) ⊎ (lt y x ≡ false)) xs

  nothing_before :
      (lt : A → A → Bool) (x : A) (xs : List A) → xs ≡ [] → All (λ y. lt y x ≡ false) xs
  nothing_before lt x xs e = rw e tt

  before-All :
      (lt : A → A → Bool) (o : IsOrder A lt) (x y : A) (xs : List A)
      → lt y x ≡ false
      → All (λ z. lt z y ≡ false) xs
      → All (λ z. lt z x ≡ false) xs
  before-All lt o x y [] e a = tt
  before-All lt o x y (z ∷ xs) e (h, a) = (o.weak x y z e h, before-All lt o x y xs e a)

  insert_by-IsFirst :
      (lt : A → A → Bool) (o : IsOrder A lt) (x : A) (xs ys : List A)
      → IsFirst lt xs (first ys)
      → IsFirst lt (x ∷ xs) (first (insert_by lt x ys))
  unfolding insert_by
  insert_by-IsFirst lt o x xs [] e = (here refl, (o.irrefl x, nothing_before lt x xs e))
  insert_by-IsFirst lt o x xs (y ∷ ys) (m, a) = elim (Bool-cases (lt y x)) [
    | inl t ↦ rw t (there m, (o.asym y x t, a))
    | inr t ↦ rw t (here refl, (o.irrefl x, before-All lt o x y xs t a))
  ]

  pub sort_by-IsFirst :
      (lt : A → A → Bool) → IsOrder A lt → (xs : List A) → IsFirst lt xs (first (sort_by lt xs))
  unfolding sort_by
  sort_by-IsFirst lt o [] = refl
  sort_by-IsFirst lt o (x ∷ xs) =
      insert_by-IsFirst lt o x xs (sort_by lt xs) (sort_by-IsFirst lt o xs)

  Among-next :
      (test : A → Bool) (x y : A) (xs kept : List A)
      → test y ≡ true
      → (Among x kept → (test x ≡ true) × Among x xs)
      → Among x (y ∷ kept)
      → (test x ≡ true) × Among x (y ∷ xs)
  Among-next test x y xs kept t rest m = elim m [
    | here e ↦ (ap test e ∙ t, here e)
    | there n ↦ let (ok, k) = rest n in (ok, there k)
  ]

  pub Among-kept :
      (test : A → Bool) (x : A) (xs : List A)
      → Among x (keep test xs)
      → (test x ≡ true) × Among x xs
  Among-kept test x [] m = elim m [ ]
  Among-kept test x (y ∷ xs) m = elim (Bool-cases (test y)) [
    | inl t ↦ Among-next test x y xs (keep test xs) t (Among-kept test x xs) (simp t at m)
    | inr t ↦ let (ok, n) = Among-kept test x xs (simp t at m) in (ok, there n)
  ]

  pub none_kept : (test : A → Bool) (xs : List A) → keep test xs ≡ [] → All (λ y. test y ≡ false) xs
  none_kept test [] e = tt
  none_kept test (y ∷ xs) e = elim (Bool-cases (test y)) [
    | inl t ↦ ground arith
    | inr t ↦ (t, none_kept test xs (ground arith))
  ]

  pub All-kept :
      (test : A → Bool) (P : A → Type 0) (xs : List A)
      → All P (keep test xs)
      → All (λ y. (test y ≡ false) ⊎ P y) xs
  All-kept test P [] a = tt
  All-kept test P (y ∷ xs) a = elim (Bool-cases (test y)) [
    | inl t ↦
        let kept : P y × All P (keep test xs) = simp t at a in
        (inr kept.0, All-kept test P xs kept.1)
    | inr t ↦ (inl t, All-kept test P xs (simp t at a))
  ]

  pub keep_same : (p q : A → Bool) (xs : List A) → ((x : A) → p x ≡ q x) → keep p xs ≡ keep q xs
  keep_same p q [] e = refl
  keep_same p q (x ∷ xs) e = ground (arith, e x, keep_same p q xs e)

  -- The first of what passes a test and is sorted.
  pub keep-Picks :
      (test : A → Bool) (lt : A → A → Bool) (o : IsOrder A lt) (xs : List A)
      → Picks test lt xs (first (sort_by lt (keep test xs)))
  keep-Picks test lt o xs =
      first_of (first (sort_by lt (keep test xs))) (sort_by-IsFirst lt o (keep test xs))
    where
      first_of : (f : Option A) → IsFirst lt (keep test xs) f → Picks test lt xs f
      first_of none e = none_kept test xs e
      first_of (some x) (m, a) =
          let (ok, k) = Among-kept test x xs m in (ok, k, All-kept test (λ y. lt y x ≡ false) xs a)

module _ (to_lowercase : String → String) (key : String) where
  precedes-IsOrder : IsOrder PeerState (precedes to_lowercase key)
  precedes-IsOrder = record {
    irrefl = λ x. ground arith;
    asym = λ x y h. ground arith;
    weak = λ x y z h k. ground arith;
  }

-- A peer that a request may be forwarded to: heard of recently, ready, not blocked by its circuit, not
-- excluded, and with the model and profile.
abbrev pub is_eligible : Router → List String → String → String → PeerState → Bool
is_eligible r excluded model profile peer =
    is_recent r peer
    && peer.ready
    && allows r peer.node_id
    && not (excludes excluded peer.node_id)
    && peer_supports_profile peer model profile

is_candidate-is_eligible :
    (r : Router) (excluded : List String) (model profile : String) (peer : PeerState)
    → is_eligible r excluded model profile peer ≡ is_candidate r excluded model profile peer
unfolding is_candidate
is_candidate-is_eligible r excluded model profile peer = ground arith

-- The peer that is found for a model is one on record that was heard of recently, is ready, is not
-- blocked by its circuit, is not excluded and advertises the model and profile; no other such peer
-- precedes it, by having the model loaded where it has not, or else by a shorter queue. No peer is
-- found only where there is no such peer.
pub find_peer_for_model-Picks :
    (to_lowercase : String → String) (r : Router) (peers : List PeerState) (model_name : String)
    (excluded : List String)
    → Picks
        (is_eligible r excluded (base_model model_name) (profile_id model_name))
        (precedes to_lowercase (base_model model_name ++ ":" ++ profile_id model_name))
        peers
        (find_peer_for_model to_lowercase r peers model_name excluded)
unfolding find_peer_for_model
find_peer_for_model-Picks to_lowercase r peers model_name excluded =
    subst (λ l. Picks test lt peers (first (sort_by lt l)))
      (keep_same test (is_candidate r excluded (base_model model_name) (profile_id model_name))
        peers (is_candidate-is_eligible r excluded (base_model model_name) (profile_id model_name)))
      (keep-Picks test lt (precedes-IsOrder to_lowercase _) peers)
  where
    test : PeerState → Bool
    test = is_eligible r excluded (base_model model_name) (profile_id model_name)

    lt : PeerState → PeerState → Bool
    lt = precedes to_lowercase (base_model model_name ++ ":" ++ profile_id model_name)
