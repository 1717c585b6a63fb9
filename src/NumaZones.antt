-- ===== src/NumaZones.antt =====
-- internal/status-exporter/export/numazones/layout.go: the split of a node's GPUs, cpus and memory
-- over simulated NUMA zones. Quantities are those of k8s.io/apimachinery, behind `Quantities`.
pub mod Sums
pub mod Distribution
pub mod Cpus
pub mod IndexToZone
use Prim.Native.String
use fake_gpu_operator.Base.{
  ℕ, zero, suc, ◌+◌, ◌-◌, ◌*◌, ◌/◌, ◌%◌, String, Bool, true, false, Option, none, some, List, [],
  ◌∷◌, ◌++◌, map, ltb, leb, nat_beq, ◌==◌, if◌then◌else◌, length, replicate, range_from,
}
use fake_gpu_operator.Base.Int.{ℤ, pos, negsuc, ◌+ℤ◌, eqb_ℤ, quot, wrap_int64}
use fake_gpu_operator.Base.Text.{decimal}
use fake_gpu_operator.Base.Result.{
  Result, ok, err, panic, ◌>>=◌, bad_zones, zone_count_mismatch, zone_sum_mismatch, bad_quantity,
}
use fake_gpu_operator.Topology.{NumaConfig}

-- resource.Quantity: parsing, the two integer readings, the constructors and the test for zero.
pub record Quantities : Type 1 where
  pub Quantity : Type 0
  pub parse_quantity : String → Option Quantity
  pub milli_value : Quantity → ℤ
  pub value : Quantity → ℤ
  pub new_milli_quantity : ℤ → Quantity
  pub new_quantity : ℤ → Quantity
  pub is_zero : Quantity → Bool

-- The cpu and memory of a node's allocatable resources.
pub record Allocatable (q : Quantities) : Type 0 where
  pub cpu : q.Quantity
  pub memory : q.Quantity

pub record ZoneLayout (q : Quantities) : Type 0 where
  pub zones : ℕ
  pub gpus_per_zone : List ℤ
  pub cpu_per_zone : Option q.Quantity
  pub mem_per_zone : Option q.Quantity
  pub cpu_ids_per_zone : List (List ℕ)

-- The loop `sum += n`, at 64 bits.
unfoldable pub int_sum : ℤ → List ℤ → ℤ
int_sum sum [] = sum
int_sum sum (n ∷ ns) = int_sum (wrap_int64 (sum +ℤ n)) ns

-- The even split: `z` counts the zones from `start` on.
unfoldable pub split_evenly : ℕ → ℕ → ℕ → ℕ → List ℕ
split_evenly base remainder start zero = []
split_evenly base remainder start (suc n) =
    (if ltb start remainder then base + 1 else base) ∷ split_evenly base remainder (suc start) n

-- distributeGPUs; `gpu_count` is the length of a list wherever it is called.
unfoldable pub distribute_gpus : ℕ → ℤ → List ℤ → Result (List ℤ)
unfolding split_evenly int_sum
distribute_gpus gpu_count (negsuc z) explicit = err bad_zones
distribute_gpus gpu_count (pos zero) explicit = err bad_zones
distribute_gpus gpu_count (pos (suc z)) [] =
    ok (map pos (split_evenly (gpu_count / suc z) (gpu_count % suc z) 0 (suc z)))
distribute_gpus gpu_count (pos (suc z)) (n ∷ ns) =
    if nat_beq (length (n ∷ ns)) (suc z)
    then (if eqb_ℤ (int_sum (pos 0) (n ∷ ns)) (pos gpu_count)
        then ok (n ∷ ns)
        else err zone_sum_mismatch)
    else err zone_count_mismatch

-- make([]int64, cores) for each zone, filled with contiguous ids.
unfoldable pub cpu_ids : ℕ → ℕ → ℕ → List (List ℕ)
cpu_ids cores offset zero = []
cpu_ids cores offset (suc zones) = range_from offset cores ∷ cpu_ids cores (offset + cores) zones

-- The loops of GPUIndexToZone: the zone's number is written once for each of its GPUs, to an array
-- with `left` places after those that are written. A place that is not there panics; places that
-- stay unwritten hold 0. A negative count writes nothing.
unfoldable pub write_zones : ℕ → List ℤ → ℕ → Result (List ℕ)
write_zones zone [] left = ok (replicate left 0)
write_zones zone (negsuc n ∷ ns) left = write_zones (suc zone) ns left
write_zones zone (pos n ∷ ns) left = elim (leb n left) [
  | false ↦ panic
  | true ↦ write_zones (suc zone) ns (left - n) >>= λ rest. ok (replicate n zone ++ rest)
]

-- make([]int, total) panics on a negative total.
unfoldable pub gpu_index_to_zone : List ℤ → Result (List ℕ)
unfolding write_zones int_sum
gpu_index_to_zone gpus_per_zone = elim (int_sum (pos 0) gpus_per_zone) [
  | negsuc n ↦ panic
  | pos total ↦ write_zones 0 gpus_per_zone total
]

-- The runs that Cpulist flushes, from the open run on.
unfoldable pub cpu_runs : ℕ → ℕ → List ℕ → List (ℕ × ℕ)
cpu_runs start prev [] = (start, prev) ∷ []
cpu_runs start prev (id ∷ ids) = elim (nat_beq id (prev + 1)) [
  | true ↦ cpu_runs start id ids
  | false ↦ (start, prev) ∷ cpu_runs id id ids
]

abbrev pub runs_of : List ℕ → List (ℕ × ℕ)
runs_of [] = []
runs_of (id ∷ ids) = cpu_runs id id ids

abbrev pub render_run : ℕ × ℕ → String
render_run (start, prev) =
    if nat_beq start prev
    then decimal start
    else String.◌++◌ (decimal start) (String.◌++◌ "-" (decimal prev))

-- strings.Join(parts, ",")
unfoldable pub join : List String → String
join [] = ""
join (part ∷ []) = part
join (part ∷ part' ∷ parts) = String.◌++◌ part (String.◌++◌ "," (join (part' ∷ parts)))

unfoldable pub cpulist : List ℕ → String
unfolding cpu_runs join
cpulist ids = join (map render_run (runs_of ids))

module _ (q : Quantities) where
  -- The explicit quantity of a zone, if there is one.
  abbrev explicit_quantity : String → Result (Option q.Quantity)
  explicit_quantity text = elim (q.parse_quantity text) [
    | none ↦ err bad_quantity
    | some x ↦ ok (some x)
  ]

  unfoldable pub per_zone_cpu : NumaConfig → Allocatable q → ℕ → Result (Option q.Quantity)
  per_zone_cpu numa alloc zones =
      if numa.cpu_per_zone == ""
      then ok (
          if q.is_zero alloc.cpu
          then none
          else some (q.new_milli_quantity (quot (q.milli_value alloc.cpu) zones)))
      else explicit_quantity numa.cpu_per_zone

  unfoldable pub per_zone_memory : NumaConfig → Allocatable q → ℕ → Result (Option q.Quantity)
  per_zone_memory numa alloc zones =
      if numa.mem_per_zone == ""
      then ok (
          if q.is_zero alloc.memory
          then none
          else some (q.new_quantity (quot (q.value alloc.memory) zones)))
      else explicit_quantity numa.mem_per_zone

  -- The whole cores of a zone, rounded.
  abbrev pub cores_of : Option q.Quantity → ℤ
  cores_of none = pos 0
  cores_of (some cpu) = quot (wrap_int64 (q.milli_value cpu +ℤ pos 500)) 1000

  -- make([]int64, cores) panics on a negative number of cores.
  abbrev pub ids_of : ℤ → ℕ → Result (List (List ℕ))
  ids_of (negsuc n) zones = panic
  ids_of (pos cores) zones = ok (cpu_ids cores 0 zones)

  -- `ok none` where the pool has no NUMA simulation.
  unfoldable pub resolve_zone_layout :
      NumaConfig → ℕ → Allocatable q → Result (Option (ZoneLayout q))
  unfolding distribute_gpus per_zone_cpu per_zone_memory cpu_ids
  resolve_zone_layout numa gpu_count alloc = elim numa.zones [
    | negsuc z ↦ ok none
    | pos zero ↦ ok none
    | pos (suc z) ↦ do
      gpus ← distribute_gpus gpu_count (pos (suc z)) numa.gpus_per_zone
      cpu ← per_zone_cpu numa alloc (suc z)
      mem ← per_zone_memory numa alloc (suc z)
      ids ← ids_of (cores_of cpu) (suc z)
      ok (
          some (record {
            zones = suc z;
            gpus_per_zone = gpus;
            cpu_per_zone = cpu;
            mem_per_zone = mem;
            cpu_ids_per_zone = ids;
          }))
  ]
