-- ===== src/PodHandler/Usage.antt =====
-- internal/status-updater/handlers/pod/gpu_usage_calculator.go: how much of a GPU a pod is said to
-- use. Errors on this path are logged by the source and dropped.
use text.Mathlib.Text.{starts_with}
use fake_gpu_operator.Base.{
  ℕ, String, Bool, true, false, ◌||◌, Option, none, some, List, [], ◌∷◌, ◌==◌, nat_beq,
  if◌then◌else◌,
}
use fake_gpu_operator.Base.Dict.{lookup}
use fake_gpu_operator.Base.Result.{Result, ok, err, api_failure, no_pod_group, no_priority_class}
use fake_gpu_operator.Base.Int.{ℤ, pos}
use fake_gpu_operator.Base.Text.{codes, is_digit, parse_digits}
use fake_gpu_operator.Topology.{Range, GpuUsageStatus}
use fake_gpu_operator.Platform.{Platform, Pod}
use fake_gpu_operator.PodHandler.Util.{
  value, is_pod_running, annotation_gpu_fraction, annotation_pod_group_name,
}

abbrev pub gpu_utilization_annotation_key : String
gpu_utilization_annotation_key = "run.ai/simulated-gpu-utilization"

abbrev pub idle_gpu_pod_name_prefix : String
idle_gpu_pod_name_prefix = "runai-idle-gpu-"

abbrev pub range : ℕ → ℕ → Range
range lo hi = record { min = pos lo; max = pos hi }

abbrev pub default_gpu_util : Range
default_gpu_util = range 100 100

-- (\d*), greedily: the digits at the front, and the rest.
abbrev pub take_digits : List ℕ → List ℕ
take_digits [] = []
take_digits (c ∷ cs) = let rest = take_digits cs in if is_digit c then c ∷ rest else []

abbrev pub drop_digits : List ℕ → List ℕ
drop_digits [] = []
drop_digits (c ∷ cs) = let rest = drop_digits cs in if is_digit c then rest else c ∷ cs

-- -*
abbrev pub drop_dashes : List ℕ → List ℕ
drop_dashes [] = []
drop_dashes (c ∷ cs) = let rest = drop_dashes cs in if nat_beq c b'-' then rest else c ∷ cs

-- The pattern (\d*)-*(\d*) matches at the front of every text, and its two groups are there; `none`
-- stands for the error.
unfoldable pub calculate_utilization : List ℕ → Option Range
unfolding parse_digits
calculate_utilization text = elim (parse_digits (take_digits text)) [
  | none ↦ none
  | some lo ↦ elim (take_digits (drop_dashes (drop_digits text))) [
    | [] ↦ some (range lo lo)
    | c ∷ cs ↦ elim (parse_digits (c ∷ cs)) [ none ↦ none | some hi ↦ some (range lo hi) ]
  ]
]

unfoldable pub calculate_utilization_from_annotation : String → Option Range
unfolding calculate_utilization
calculate_utilization_from_annotation annotation = calculate_utilization (codes annotation)

unfoldable pub is_pod_name_marked_as_idle : String → Bool
is_pod_name_marked_as_idle name = starts_with name idle_gpu_pod_name_prefix

-- The pod type that the workloadKind label stands for.
abbrev pub workload_type : String → Option String
workload_type kind =
    if kind == "TrainingWorkload"
    then some "train"
    else if kind == "DistributedWorkload"
    then some "distributed-inference"
    else if kind == "InferenceWorkload"
    then some "inference"
    else if kind == "InteractiveWorkload"
    then some "interactive"
    else none

module _ (p : Platform) where
  -- The lookup of the pod group that getPodType falls back to.
  unfoldable pub pod_group_type : p.State → Pod → Result String
  pod_group_type s pod =
      let name = value annotation_pod_group_name pod.annotations in
      if name == "" then err no_pod_group else elim (p.get_priority_class s pod.namespace name) [
        | none ↦ err api_failure
        | some none ↦ err no_priority_class
        | some (some class) ↦ ok class
      ]

  unfoldable pub get_pod_type : p.State → Pod → Result String
  unfolding pod_group_type
  get_pod_type s pod = elim (lookup "workloadKind" pod.labels) [
    | none ↦ pod_group_type s pod
    | some kind ↦ elim (workload_type kind) [ none ↦ pod_group_type s pod | some type ↦ ok type ]
  ]

  unfoldable pub generate_gpu_usage_status : Range → p.Float → ℤ → Bool → GpuUsageStatus
  generate_gpu_usage_status utilization fraction memory knative = record {
    utilization = utilization;
    fb_used = p.times memory fraction;
    use_knative_utilization = knative;
  }

  -- The switch on the pod type; an error left the empty one.
  unfoldable pub usage_of_type : String → p.Float → ℤ → GpuUsageStatus
  unfolding generate_gpu_usage_status
  usage_of_type type fraction memory =
      if type == "train"
      then generate_gpu_usage_status (range 80 100) fraction memory false
      else if type == "build"
          || type == "interactive-preemptible"
          || type == "interactive"
          || type == "distributed"
      then generate_gpu_usage_status (range 0 0) fraction memory false
      else if type == "inference" || type == "distributed-inference"
      then generate_gpu_usage_status (range 0 0) fraction memory true
      else generate_gpu_usage_status default_gpu_util fraction memory false

  unfoldable pub calculate_gpu_usage_from_pod_type : p.State → Pod → p.Float → ℤ → GpuUsageStatus
  unfolding get_pod_type usage_of_type
  calculate_gpu_usage_from_pod_type s pod fraction memory =
      let type : String = elim (get_pod_type s pod) [ ok type ↦ type | _ ↦ "" ] in
      usage_of_type type fraction memory

  -- The gpu-fraction annotation, 1 if it is missing or malformed.
  unfoldable pub gpu_fraction : Pod → p.Float
  gpu_fraction pod = elim (lookup annotation_gpu_fraction pod.annotations) [
    | none ↦ p.one
    | some text ↦ elim (p.parse_float text) [ none ↦ p.one | some fraction ↦ fraction ]
  ]

  -- The annotated utilization, where there is one that parses.
  abbrev pub annotated_utilization : Pod → Option Range
  annotated_utilization pod = elim (lookup gpu_utilization_annotation_key pod.annotations) [
    | none ↦ none
    | some text ↦ calculate_utilization_from_annotation text
  ]

  unfoldable pub calculate_usage : p.State → Pod → ℤ → GpuUsageStatus
  unfolding gpu_fraction is_pod_running is_pod_name_marked_as_idle
      calculate_utilization_from_annotation generate_gpu_usage_status
      calculate_gpu_usage_from_pod_type
  calculate_usage s pod memory =
      if is_pod_running pod
      then (if is_pod_name_marked_as_idle pod.name
          then generate_gpu_usage_status (range 0 0) (gpu_fraction pod) memory false
          else elim (annotated_utilization pod) [
            | some utilization ↦
                generate_gpu_usage_status utilization (gpu_fraction pod) memory false
            | none ↦ calculate_gpu_usage_from_pod_type s pod (gpu_fraction pod) memory
          ])
      else generate_gpu_usage_status (range 0 0) (gpu_fraction pod) memory false
