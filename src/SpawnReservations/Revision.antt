-- ===== src/SpawnReservations/Revision.antt =====
-- The optimistic check of `with_revision`: what an unchanged revision says of the registry.
use mathlib.Core.Option.{some-injective}
use llamesh.Prelude.{
  ℕ, suc, ◌+◌, ◌%◌, ◌≤◌, ◌<◌, ◌≡◌, refl, sym, ap, ◌⊎◌, inl, inr, none, some, List, [], ◌∷◌, String,
  arith, length, Option-cases, Bool-cases, if_both, eqb, eqb_iff,
}
use llamesh.Prelude.Word.{u64_mod, u64_incr}
use llamesh.Prelude.Eq.{string_key}
use llamesh.Prelude.Dict.{lookup}
use llamesh.SpawnReservations.{
  ReservationState, snapshot, with_revision, add_entry, mark_handed_off, update_pid, mark_ready,
  release_memory,
}

pub data RegistryCall : Type 0 where
  adds : String → String → ℕ × ℕ → RegistryCall
  hands_off : String → RegistryCall
  pids : String → ℕ → RegistryCall
  readies : String → RegistryCall
  releases : String → RegistryCall

unfoldable pub apply : ReservationState → RegistryCall → ReservationState
apply state (adds id key estimate) = add_entry state id key estimate
apply state (hands_off id) = mark_handed_off state id
apply state (pids id pid) = update_pid state id pid
apply state (readies id) = mark_ready state id
apply state (releases id) = release_memory state id

unfoldable pub apply_all : ReservationState → List RegistryCall → ReservationState
apply_all state [] = state
apply_all state (call ∷ calls) = apply_all (apply state call) calls

-- A call writes nothing, or moves the revision on by one.
abbrev Moves : ReservationState → ReservationState → Type 0
Moves s t = (t ≡ s) ⊎ (t.revision ≡ u64_incr s.revision)

apply-Moves : (s : ReservationState) (call : RegistryCall) → Moves s (apply s call)
unfolding apply add_entry mark_handed_off update_pid mark_ready release_memory
apply-Moves s (adds id key estimate) = inr refl
apply-Moves s (hands_off id) = elim (Option-cases (lookup id s.entries)) [
  | inl e ↦ rw (e, mark_handed_off) (inl refl)
  | inr (c, e) ↦ rw (e, mark_handed_off) (if_both (Moves s) c.pending _ _ (inr refl) (inl refl))
]
apply-Moves s (pids id pid) = elim (Option-cases (lookup id s.entries)) [
  | inl e ↦ rw (e, update_pid) (inl refl)
  | inr (c, e) ↦ rw (e, update_pid) (if_both (Moves s) _ _ _ (inr refl) (inl refl))
]
apply-Moves s (readies id) = elim (Option-cases (lookup id s.entries)) [
  | inl e ↦ rw (e, mark_ready) (inl refl)
  | inr (c, e) ↦ rw (e, mark_ready) (if_both (Moves s) _ _ _ (inr refl) (inl refl))
]
apply-Moves s (releases id) = elim (Option-cases (lookup id s.entries)) [
  | inl e ↦ rw (e, release_memory) (inl refl)
  | inr (c, e) ↦ rw (e, release_memory) (inr refl)
]

-- How far some calls moved the revision.
record Moved (s t : ReservationState) (calls : ℕ) : Type 0 where
  moves : ℕ
  at_most : moves ≤ calls
  revision : t.revision ≡ (s.revision + moves) % u64_mod
  unmoved : moves ≡ 0 → t ≡ s

apply_all-Moved :
    (s : ReservationState) (calls : List RegistryCall)
    → s.revision < u64_mod
    → Moved s (apply_all s calls) (length calls)
unfolding apply_all
apply_all-Moved s [] fits = record {
  moves = 0;
  at_most = omega arith;
  revision = omega arith;
  unmoved = λ z. refl;
}
apply_all-Moved s (call ∷ calls) fits = elim (apply-Moves s call) [
  | inl same ↦
      let rest = apply_all-Moved s calls fits in
      rw same (record {
        moves = rest.moves;
        at_most = omega arith;
        revision = rest.revision;
        unmoved = rest.unmoved;
      })
  | inr on ↦
      let rest = apply_all-Moved (apply s call) calls (omega arith) in
      record {
        moves = suc rest.moves;
        at_most = omega arith;
        revision = omega arith;
        unmoved = λ z. absurd (omega arith);
      }
]

none≢some {ℓ} : {T : Type ℓ} (x : T) → none ≡ some x → ⊥
none≢some x e = cc

-- With fewer than 2^64 calls between a snapshot and its check, the check runs `f` only on the very
-- entries of the snapshot.
pub with_revision_sound {ℓ} :
    {T : Type ℓ} (s : ReservationState) (calls : List RegistryCall) (f : Unit {0} → T) (result : T)
    → s.revision < u64_mod
    → length calls < u64_mod
    → with_revision (apply_all s calls) (snapshot s).revision f ≡ some result
    → ((apply_all s calls).entries ≡ (snapshot s).entries) × (result ≡ f tt)
unfolding with_revision snapshot
with_revision_sound s calls f result fits few ran =
    elim (Bool-cases (eqb (apply_all s calls).revision s.revision)) [
      | inl same ↦
          let m = apply_all-Moved s calls fits in
          let e : (apply_all s calls).revision ≡ s.revision = (eqb_iff _ _).0 same in
          (
            ap (λ x. x.entries) (m.unmoved (omega arith)),
            sym (some-injective (f tt) result (simp same at ran)),
          )
      | inr moved ↦ absurd (none≢some result (simp moved at ran))
    ]
