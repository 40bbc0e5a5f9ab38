-- ===== src/Admission/Account.antt =====
-- src/node_state/mod.rs, `resource_accounting_for_instances`: what the spawns and the instances of
-- the node are charged. An `Instance` is what admission reads of one. The memory sampler is not
-- modelled: its readings are parameters.
use llamesh.Prelude.{
  ℕ, ◌+◌, ◌-◌, Bool, true, false, not, ◌||◌, Option, none, some, List, [], ◌∷◌, String, length,
  is_some, if◌then◌else◌,
}
use llamesh.Prelude.Word.{saturating_add}
use llamesh.Prelude.Eq.{string_key}
use llamesh.Prelude.Dict.{Dict, insert}
use llamesh.SpawnReservations.{MemoryCommitment, ReservationState, node_total}

pub record Instance : Type 0 where
  pub id : String
  pub model_name : String
  pub profile_id : String
  pub in_flight_requests : ℕ
  pub last_activity : ℕ
  pub has_reservation : Bool  -- `memory_reservation.is_some()`
  pub learned_memory : ℕ × ℕ  -- `get_memory_for_instance`

pub record GpuMemorySnapshot : Type 0 where
  pub used_mb : ℕ
  pub total_mb : ℕ

-- What the sampler reads of a process, and of the device.
pub record Samples : Type 0 where
  pub sample_vram : ℕ → Option ℕ
  pub sample_sysmem : ℕ → Option ℕ
  pub sample_device_vram : Option GpuMemorySnapshot

pub record ResourceSnapshot : Type 0 where
  pub llamesh_vram_mb : ℕ
  pub llamesh_sysmem_mb : ℕ
  pub external_vram_mb : ℕ
  pub effective_vram_mb : ℕ
  pub effective_sysmem_mb : ℕ
  pub device_vram_used_mb : ℕ
  pub device_vram_total_mb : ℕ
  pub gpu_telemetry_available : Bool
  pub active_instances : ℕ

abbrev device_reading : Option GpuMemorySnapshot → ℕ × ℕ × Bool
device_reading none = (0, 0, false)
device_reading (some snapshot) = (snapshot.used_mb, snapshot.total_mb, true)

unfoldable pub from_samples : ℕ → ℕ → Option GpuMemorySnapshot → ℕ → ResourceSnapshot
from_samples llamesh_vram_mb llamesh_sysmem_mb device_vram active_instances =
    let (used, total, available) = device_reading device_vram in
    let external = used - llamesh_vram_mb in
    record {
      llamesh_vram_mb = llamesh_vram_mb;
      llamesh_sysmem_mb = llamesh_sysmem_mb;
      external_vram_mb = external;
      effective_vram_mb = llamesh_vram_mb + external;
      effective_sysmem_mb = llamesh_sysmem_mb;
      device_vram_used_mb = used;
      device_vram_total_mb = total;
      gpu_telemetry_available = available;
      active_instances = active_instances;
    }

-- The variables of the loops of `resource_accounting_for_instances`.
pub record Totals : Type 0 where
  pub vram : ℕ
  pub sysmem : ℕ
  pub promised_vram : ℕ
  pub promised_sysmem : ℕ
  pub instance_memory : Dict String (ℕ × ℕ)

abbrev pub unwrap_or : Option ℕ → ℕ → ℕ
unwrap_or none d = d
unwrap_or (some x) d = x

abbrev pub live_reading : (ℕ → Option ℕ) → Option ℕ → Option ℕ
live_reading sample none = none
live_reading sample (some pid) = sample pid

-- What of an estimate is still promised, beside what is observed.
abbrev pub committed : Bool → Option ℕ → ℕ → ℕ
committed ready live estimate =
    if not ready || not (is_some live) then estimate - unwrap_or live 0 else 0

unfoldable pub add_commitment : Samples → Totals → String → MemoryCommitment → Totals
add_commitment s t id entry =
    let live_vram = live_reading s.sample_vram entry.pid in
    let live_sysmem = live_reading s.sample_sysmem entry.pid in
    let observed_vram = unwrap_or live_vram 0 in
    let observed_sysmem = unwrap_or live_sysmem 0 in
    let committed_vram = committed entry.ready live_vram entry.estimate.0 in
    let committed_sysmem = committed entry.ready live_sysmem entry.estimate.1 in
    record {
      vram = saturating_add t.vram observed_vram;
      sysmem = saturating_add t.sysmem observed_sysmem;
      promised_vram = saturating_add t.promised_vram committed_vram;
      promised_sysmem = saturating_add t.promised_sysmem committed_sysmem;
      instance_memory =
          insert id
            (
              saturating_add observed_vram committed_vram,
              saturating_add observed_sysmem committed_sysmem,
            )
            t.instance_memory;
    }

unfoldable pub add_commitments : Samples → Totals → Dict String MemoryCommitment → Totals
unfolding add_commitment
add_commitments s t [] = t
add_commitments s t ((id, entry) ∷ entries) =
    add_commitments s (add_commitment s t id entry) entries

-- An instance built outside the scheduler has no reservation: it is charged what was learned.
unfoldable pub add_instance : Totals → Instance → Totals
add_instance t inst = if inst.has_reservation then t else record {
  vram = saturating_add t.vram inst.learned_memory.0;
  sysmem = saturating_add t.sysmem inst.learned_memory.1;
  promised_vram = t.promised_vram;
  promised_sysmem = t.promised_sysmem;
  instance_memory = insert inst.id inst.learned_memory t.instance_memory;
}

unfoldable pub add_unleased : Totals → List Instance → Totals
add_unleased t [] = t
add_unleased t (inst ∷ instances) = add_unleased (add_instance t inst) instances

abbrev pub no_totals : Totals
no_totals = record {
  vram = 0;
  sysmem = 0;
  promised_vram = 0;
  promised_sysmem = 0;
  instance_memory = [];
}

pub record ResourceAccounting : Type 0 where
  pub resources : ResourceSnapshot
  pub reservations : ReservationState
  pub instance_memory : Dict String (ℕ × ℕ)

unfoldable pub resource_accounting : Samples → ReservationState → List Instance → ResourceAccounting
unfolding add_commitments add_unleased from_samples
resource_accounting s reservations instances =
    let t = add_unleased (add_commitments s no_totals reservations.entries) instances in
    let sampled =
      from_samples t.vram t.sysmem s.sample_device_vram
        (length instances + node_total reservations) in
    record {
      resources = record sampled {
        effective_vram_mb = saturating_add sampled.effective_vram_mb t.promised_vram;
        effective_sysmem_mb = saturating_add sampled.effective_sysmem_mb t.promised_sysmem;
      };
      reservations = reservations;
      instance_memory = t.instance_memory;
    }
