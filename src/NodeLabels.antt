-- ===== src/NodeLabels.antt =====
-- internal/status-exporter/export/labels/labels_builder.go: the labels that a node gets from its
-- topology. A label value is the list of its code points here; invalidLabelChars leaves ASCII only.
pub mod Sanitize
use fake_gpu_operator.Base.{
  ℕ, zero, suc, String, Bool, not, ◌&&◌, ◌||◌, List, [], ◌∷◌, map, length, leb, nat_beq,
  if◌then◌else◌,
}
use fake_gpu_operator.Base.Int.{ℤ, pos, negsuc}
use fake_gpu_operator.Base.Dict.{Dict}
use fake_gpu_operator.Base.Text.{codes, decimal}
use fake_gpu_operator.Topology.{NodeTopology}

abbrev pub is_alphanumeric : ℕ → Bool
is_alphanumeric c =
    (leb b'a' c && leb c b'z') || (leb b'A' c && leb c b'Z') || (leb b'0' c && leb c b'9')

-- [a-zA-Z0-9._-]
abbrev pub is_label_char : ℕ → Bool
is_label_char c = is_alphanumeric c || nat_beq c b'.' || nat_beq c b'_' || nat_beq c b'-'

unfoldable pub replace_invalid : List ℕ → List ℕ
replace_invalid [] = []
replace_invalid (c ∷ cs) = (if is_label_char c then c else b'-') ∷ replace_invalid cs

-- s[:n], where s is longer than n.
unfoldable pub take : ℕ → List ℕ → List ℕ
take zero cs = []
take (suc n) [] = []
take (suc n) (c ∷ cs) = c ∷ take n cs

-- strings.TrimFunc, from the left and then from the right.
unfoldable pub trim_left : List ℕ → List ℕ
trim_left [] = []
trim_left (c ∷ cs) = let rest = trim_left cs in if is_alphanumeric c then c ∷ cs else rest

unfoldable pub trim_right : List ℕ → List ℕ
trim_right [] = []
trim_right (c ∷ cs) = elim (trim_right cs) [
  | [] ↦ if is_alphanumeric c then c ∷ [] else []
  | d ∷ ds ↦ c ∷ d ∷ ds
]

-- A limit on the length: a value that is not longer stays.
abbrev pub limit : List ℕ → List ℕ
limit cs = if leb (length cs) 63 then cs else take 63 cs

unfoldable pub sanitize_label_value : List ℕ → List ℕ
unfolding replace_invalid take trim_left trim_right
sanitize_label_value cs = trim_right (trim_left (limit (replace_invalid cs)))

-- strconv.Itoa
unfoldable pub itoa : ℤ → List ℕ
itoa (pos n) = codes (decimal n)
itoa (negsuc n) = b'-' ∷ codes (decimal (suc n))

unfoldable pub build_node_labels : NodeTopology → Dict (List ℕ)
unfolding sanitize_label_value itoa
build_node_labels topology =
    ("nvidia.com/gpu.memory", itoa topology.gpu_memory)
    ∷ ("nvidia.com/gpu.product", sanitize_label_value (codes topology.gpu_product))
    ∷ ("nvidia.com/mig.strategy", codes topology.mig_strategy)
    ∷ ("nvidia.com/gpu.count", itoa (pos (length topology.gpus)))
    ∷ ("nvidia.com/gpu.present", codes "true")
    ∷ ("run.ai/fake.gpu", codes "true")
    ∷ []
