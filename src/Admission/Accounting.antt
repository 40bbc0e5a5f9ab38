-- ===== src/Admission/Accounting.antt =====
-- What the node's memory account adds up to.
use llamesh.Prelude.{
  ℕ, ◌+◌, ◌≤◌, ◌≡◌, refl, ◌∙◌, max, Bool, true, false, ◌&&◌, Option, none, some, List, [], ◌∷◌,
  String, arith, is_some, if◌then◌else◌,
}
use llamesh.Prelude.Word.{u64_max}
use llamesh.Prelude.Eq.{string_key}
use llamesh.Prelude.Dict.{Dict}
use llamesh.SpawnReservations.{MemoryCommitment, ReservationState}
use llamesh.Admission.Account.{
  Instance, GpuMemorySnapshot, Samples, Totals, no_totals, unwrap_or, live_reading, committed,
  add_commitment, add_commitments, add_instance, add_unleased, resource_accounting,
}

-- What one commitment is charged: the larger of its estimate and its reading, while it loads or
-- cannot be read, and else the reading.
abbrev pub charge : Bool → Option ℕ → ℕ → ℕ
charge ready live estimate =
    if ready && is_some live then unwrap_or live 0 else max estimate (unwrap_or live 0)

abbrev pub vram_charge : Samples → MemoryCommitment → ℕ
vram_charge s e = charge e.ready (live_reading s.sample_vram e.pid) e.estimate.0

abbrev pub sysmem_charge : Samples → MemoryCommitment → ℕ
sysmem_charge s e = charge e.ready (live_reading s.sample_sysmem e.pid) e.estimate.1

-- The sum of a charge over the registry, and of the instances that hold no reservation.
abbrev pub charges : (MemoryCommitment → ℕ) → Dict String MemoryCommitment → ℕ
charges f [] = 0
charges f ((id, e) ∷ entries) = f e + charges f entries

abbrev pub unleased : (ℕ × ℕ → ℕ) → List Instance → ℕ
unleased part [] = 0
unleased part (i ∷ is) = (if i.has_reservation then 0 else part i.learned_memory) + unleased part is

abbrev pub device_used : Option GpuMemorySnapshot → ℕ
device_used none = 0
device_used (some snapshot) = snapshot.used_mb

abbrev pub vram_of : ℕ × ℕ → ℕ
vram_of m = m.0

abbrev pub sysmem_of : ℕ × ℕ → ℕ
sysmem_of m = m.1

observed_and_committed :
    (ready : Bool) (live : Option ℕ) (estimate : ℕ)
    → unwrap_or live 0 + committed ready live estimate ≡ charge ready live estimate
observed_and_committed true none estimate = ground arith
observed_and_committed true (some x) estimate = ground arith
observed_and_committed false none estimate = ground arith
observed_and_committed false (some x) estimate = ground arith

add_commitments_total :
    (s : Samples) (t : Totals) (entries : Dict String MemoryCommitment)
    → t.vram + t.promised_vram + charges (vram_charge s) entries ≤ u64_max
    → t.sysmem + t.promised_sysmem + charges (sysmem_charge s) entries ≤ u64_max
    → ((add_commitments s t entries).vram + (add_commitments s t entries).promised_vram
        ≡ t.vram + t.promised_vram + charges (vram_charge s) entries)
      × ((add_commitments s t entries).sysmem + (add_commitments s t entries).promised_sysmem
          ≡ t.sysmem + t.promised_sysmem + charges (sysmem_charge s) entries)
unfolding add_commitments
add_commitments_total s t [] hv hs = (omega arith, omega arith)
add_commitments_total s t ((id, e) ∷ entries) hv hs =
    let t' = add_commitment s t id e in
    let v = observed_and_committed e.ready (live_reading s.sample_vram e.pid) e.estimate.0 in
    let m = observed_and_committed e.ready (live_reading s.sample_sysmem e.pid) e.estimate.1 in
    let ev : t'.vram + t'.promised_vram ≡ t.vram + t.promised_vram + vram_charge s e =
      omega (arith, v) in
    let es : t'.sysmem + t'.promised_sysmem ≡ t.sysmem + t.promised_sysmem + sysmem_charge s e =
      omega (arith, m) in
    let rest = add_commitments_total s t' entries (omega (arith, ev)) (omega (arith, es)) in
    (omega (arith, rest.0, ev), omega (arith, rest.1, es))

add_instance_total :
    (t : Totals) (i : Instance)
    → t.vram + (if i.has_reservation then 0 else i.learned_memory.0) ≤ u64_max
    → t.sysmem + (if i.has_reservation then 0 else i.learned_memory.1) ≤ u64_max
    → ((add_instance t i).vram ≡ t.vram + (if i.has_reservation then 0 else i.learned_memory.0))
      × ((add_instance t i).sysmem
          ≡ t.sysmem + (if i.has_reservation then 0 else i.learned_memory.1))
      × ((add_instance t i).promised_vram ≡ t.promised_vram)
      × ((add_instance t i).promised_sysmem ≡ t.promised_sysmem)
unfolding add_instance
add_instance_total t i hv hs = ground arith

add_unleased_total :
    (t : Totals) (instances : List Instance)
    → t.vram + unleased vram_of instances ≤ u64_max
    → t.sysmem + unleased sysmem_of instances ≤ u64_max
    → ((add_unleased t instances).vram ≡ t.vram + unleased vram_of instances)
      × ((add_unleased t instances).sysmem ≡ t.sysmem + unleased sysmem_of instances)
      × ((add_unleased t instances).promised_vram ≡ t.promised_vram)
      × ((add_unleased t instances).promised_sysmem ≡ t.promised_sysmem)
unfolding add_unleased
add_unleased_total t [] hv hs = (omega arith, omega arith, refl, refl)
add_unleased_total t (i ∷ is) hv hs =
    let one = add_instance_total t i (omega arith) (omega arith) in
    let rest =
      add_unleased_total (add_instance t i) is (omega (arith, one.0)) (omega (arith, one.1)) in
    (omega (arith, rest.0, one.0), omega (arith, rest.1, one.1), rest.2 ∙ one.2, rest.3 ∙ one.3)

-- No commitment is left out of the account: short of saturation the effective memory of the node
-- is at least what its commitments are charged, each the larger of estimate and reading until it
-- is ready and read, and what was learned of the instances without one; and its VRAM is at least
-- what the device reports as used.
pub resource_accounting_bounds :
    (s : Samples) (reservations : ReservationState) (instances : List Instance)
    → charges (vram_charge s) reservations.entries
        + unleased vram_of instances
        + device_used s.sample_device_vram
      ≤ u64_max
    → charges (sysmem_charge s) reservations.entries + unleased sysmem_of instances ≤ u64_max
    → (charges (vram_charge s) reservations.entries + unleased vram_of instances
        ≤ (resource_accounting s reservations instances).resources.effective_vram_mb)
      × (device_used s.sample_device_vram
          ≤ (resource_accounting s reservations instances).resources.effective_vram_mb)
      × (charges (sysmem_charge s) reservations.entries + unleased sysmem_of instances
          ≡ (resource_accounting s reservations instances).resources.effective_sysmem_mb)
unfolding resource_accounting
resource_accounting_bounds s reservations instances hv hs =
    let t = add_commitments s no_totals reservations.entries in
    let c = add_commitments_total s no_totals reservations.entries (omega arith) (omega arith) in
    let u = add_unleased_total t instances (omega (arith, c.0)) (omega (arith, c.1)) in
    (ground (arith, c.0, u.0, u.2), ground (arith, c.0, u.0, u.2), ground (arith, c.1, u.1, u.3))
