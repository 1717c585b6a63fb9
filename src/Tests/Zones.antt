-- ===== src/Tests/Zones.antt =====
-- NUMA zones of a node with five GPUs.
use fake_gpu_operator.Base.{
  arith, ◌-◌, ◌^◌, range_from, ◌*◌, ◌/◌, ◌≡◌, refl, List, [], ◌∷◌, All, length,
}
use fake_gpu_operator.Base.Int.{ℤ, pos, negsuc, wrap_int64}
use fake_gpu_operator.Base.Result.{ok, panic}
use fake_gpu_operator.Base.Text.{decimal}
use fake_gpu_operator.NumaZones.{distribute_gpus, gpu_index_to_zone, cpu_ids, runs_of, cpulist}
use fake_gpu_operator.NumaZones.Sums.{sum_ℤ}
use fake_gpu_operator.NumaZones.Distribution.{IsShare, distribute_gpus_exact, distribute_gpus_even}
use fake_gpu_operator.NumaZones.IndexToZone.{gpu_index_to_zone_exact, gpu_index_to_zone-panic}
use fake_gpu_operator.NumaZones.Cpus.{concat, cpu_ids_contiguous, expand, expand-runs_of}

abbrev even : List ℤ
even = pos 3 ∷ pos 2 ∷ []

even_run : distribute_gpus 5 (pos 2) [] ≡ ok even
unfolding distribute_gpus
even_run = refl

distribute_gpus_exact_example : (length even ≡ 2) × (sum_ℤ even ≡ pos 5)
distribute_gpus_exact_example =
    distribute_gpus_exact 5 2 [] even (omega arith, omega arith) even_run

distribute_gpus_even_example :
    (ns : List ℤ) × (distribute_gpus 5 (pos 2) [] ≡ ok ns)
    × (length ns ≡ 2)
    × (sum_ℤ ns ≡ pos 5)
    × All (IsShare (5 / 2)) ns
distribute_gpus_even_example = distribute_gpus_even 5 1

gpu_index_to_zone_exact_example :
    gpu_index_to_zone (pos 3 ∷ pos 2 ∷ []) ≡ ok (0 ∷ 0 ∷ 0 ∷ 1 ∷ 1 ∷ [])
gpu_index_to_zone_exact_example = gpu_index_to_zone_exact (3 ∷ 2 ∷ []) (omega arith)

-- Two counts that add up to the two GPUs of a node are accepted; the table for them panics.
accepted : distribute_gpus 2 (pos 2) (pos 3 ∷ negsuc 0 ∷ []) ≡ ok (pos 3 ∷ negsuc 0 ∷ [])
unfolding distribute_gpus wrap_int64
accepted = refl

gpu_index_to_zone-panic_example : gpu_index_to_zone (pos 3 ∷ negsuc 0 ∷ []) ≡ panic
gpu_index_to_zone-panic_example =
    gpu_index_to_zone-panic (pos 3 ∷ negsuc 0 ∷ []) (omega arith, omega arith) refl

cpu_ids_contiguous_example :
    (concat (cpu_ids 4 0 2) ≡ range_from 0 (2 * 4))
    × (length (cpu_ids 4 0 2) ≡ 2)
    × All (λ ids. length ids ≡ 4) (cpu_ids 4 0 2)
cpu_ids_contiguous_example = cpu_ids_contiguous 4 0 2

expand-runs_of_example : expand (runs_of (0 ∷ 1 ∷ 2 ∷ 8 ∷ [])) ≡ 0 ∷ 1 ∷ 2 ∷ 8 ∷ []
expand-runs_of_example = expand-runs_of (0 ∷ 1 ∷ 2 ∷ 8 ∷ [])

cpulist_run : cpulist (0 ∷ 1 ∷ 2 ∷ 3 ∷ 8 ∷ []) ≡ "0-3,8"
unfolding cpulist decimal
cpulist_run = refl

-- Declared counts whose sum wraps around to the two GPUs of a node are accepted.
wrapped_accepted :
    distribute_gpus 2 (pos 3) (pos (2 ^ 63 - 1) ∷ pos (2 ^ 63 - 1) ∷ pos 4 ∷ [])
    ≡ ok (pos (2 ^ 63 - 1) ∷ pos (2 ^ 63 - 1) ∷ pos 4 ∷ [])
unfolding distribute_gpus wrap_int64
wrapped_accepted = refl
