-- ===== src/NumaZones/Cpus.antt =====
-- The synthetic core ids of the zones, and their cpulist form.
use fake_gpu_operator.Base.{
  ℕ, zero, suc, ◌+◌, ◌-◌, ◌*◌, ◌≤◌, ◌≡◌, refl, sym, ap, ◌∙◌, List, [], ◌∷◌, ◌++◌, inl, inr, nat_beq,
  nat_beq→eq, length, length-range_from, All, range_from, Bool-cases, arith,
}
use mathlib.Core.List.{append_assoc}
use fake_gpu_operator.NumaZones.{cpu_ids, cpu_runs, runs_of}

abbrev pub concat : List (List ℕ) → List ℕ
concat [] = []
concat (xs ∷ xss) = xs ++ concat xss

start_zero : (n : ℕ) → n + 0 ≡ n
start_zero n = omega arith

zero_plus : (n : ℕ) → 0 + n ≡ n
zero_plus n = omega arith

shift : (a b : ℕ) → a + suc b ≡ suc a + b
shift a b = omega arith

sum_suc : (a b : ℕ) → suc a + b ≡ suc (a + b)
sum_suc a b = omega arith

range_from-add :
    (start m n : ℕ) → range_from start m ++ range_from (start + m) n ≡ range_from start (m + n)
range_from-add start zero n = rw (start_zero start, zero_plus n) refl
range_from-add start (suc m) n =
    rw (sum_suc m n, shift start m) (ap (λ l. start ∷ l) (range_from-add (suc start) m n))

zero_times : (n : ℕ) → 0 * n ≡ 0
zero_times n = omega arith

suc_times : (m n : ℕ) → n + m * n ≡ suc m * n
suc_times m n = grind arith

-- The ids of all zones in turn are the numbers from `offset` on, each once, in as many lists as there
-- are zones, and each zone has the number of its cores: the zones are contiguous, disjoint and of one
-- size.
pub cpu_ids_contiguous :
    (cores offset zones : ℕ)
    → (concat (cpu_ids cores offset zones) ≡ range_from offset (zones * cores))
      × (length (cpu_ids cores offset zones) ≡ zones)
      × All (λ ids. length ids ≡ cores) (cpu_ids cores offset zones)
unfolding cpu_ids
cpu_ids_contiguous cores offset zero = (rw (zero_times cores) refl, refl, tt)
cpu_ids_contiguous cores offset (suc zones) =
    let (ids, count, sizes) = cpu_ids_contiguous cores (offset + cores) zones in
    (
      rw ids (range_from-add offset cores (zones * cores))
          ∙ ap (range_from offset) (suc_times zones cores),
      ap suc count,
      (length-range_from offset cores, sizes),
    )

-- What a reader of a cpulist makes of its runs.
abbrev pub expand : List (ℕ × ℕ) → List ℕ
expand [] = []
expand ((start, prev) ∷ runs) = range_from start (prev + 1 - start) ++ expand runs

one_more : (id : ℕ) → id + 1 - id ≡ 1
one_more id = omega arith

longer : (start prev id : ℕ) → start ≤ prev → id ≡ prev + 1 → id + 1 - start ≡ prev + 1 - start + 1
longer start prev id h e = omega arith

last : (start prev id : ℕ) → start ≤ prev → id ≡ prev + 1 → start + (prev + 1 - start) ≡ id
last start prev id h e = omega arith

extend :
    (start prev id : ℕ) (ids : List ℕ)
    → start ≤ prev
    → id ≡ prev + 1
    → range_from start (id + 1 - start) ++ ids ≡ range_from start (prev + 1 - start) ++ id ∷ ids
extend start prev id ids h e =
    let k = prev + 1 - start in
    ap (λ m. range_from start m ++ ids) (longer start prev id h e)
    ∙ ap (λ l. l ++ ids) (sym (range_from-add start k 1))
    ∙ append_assoc (range_from start k) (range_from (start + k) 1) ids
    ∙ ap (λ x. range_from start k ++ x ∷ ids) (last start prev id h e)

expand-cpu_runs :
    (start prev : ℕ) (ids : List ℕ)
    → start ≤ prev
    → expand (cpu_runs start prev ids) ≡ range_from start (prev + 1 - start) ++ ids
unfolding cpu_runs
expand-cpu_runs start prev [] h = refl
expand-cpu_runs start prev (id ∷ ids) h = elim (Bool-cases (nat_beq id (prev + 1))) [
  | inl e ↦
      rw (e, cpu_runs)
        (expand-cpu_runs start id ids (ground arith)
          ∙ extend start prev id ids h (nat_beq→eq _ _ e))
  | inr e ↦
      rw (e, cpu_runs)
        (ap (λ l. range_from start (prev + 1 - start) ++ l)
          (expand-cpu_runs id id ids (omega arith) ∙ rw (one_more id) refl))
]

-- The runs of a cpulist stand for exactly the ids, in their order.
pub expand-runs_of : (ids : List ℕ) → expand (runs_of ids) ≡ ids
expand-runs_of [] = refl
expand-runs_of (id ∷ ids) = expand-cpu_runs id id ids (omega arith) ∙ rw (one_more id) refl
