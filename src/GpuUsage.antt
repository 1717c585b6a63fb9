-- ===== src/GpuUsage.antt =====
-- internal/common/topology/podGpuUsageStatusMap.go and range.go: what a GPU's pods make it use.
pub mod Rates
pub mod Bounds
use Prim.Native.String
use fake_gpu_operator.Base.{ℕ, zero, suc, String, Option, none, some, List, [], ◌∷◌, if◌then◌else◌}
use fake_gpu_operator.Base.Int.{ℤ, pos, negsuc, ◌+ℤ◌, ◌-ℤ◌, eqb_ℤ, wrap_int64}
use fake_gpu_operator.Base.Result.{Result, ok, err, panic, ◌>>=◌}
use fake_gpu_operator.Topology.{Range, GpuUsageStatus, PodGpuUsageStatusMap}

-- What is drawn and measured: rand.Intn for the pod of a UID, which is called with a positive number;
-- http.Get and io.ReadAll of its body, none where one of them fails; url.Values.Encode of the one
-- parameter `query`; and of gjson the array at data.result.#.value of a text, the array of a value,
-- and int of the Float of a value. `min_float a b` is int(math.Min(float64(a), float64(b))).
pub record Sampler : Type 1 where
  pub Json : Type 0
  pub intn : String → ℕ → ℕ
  pub prometheus_base_url : String
  pub encode_query : String → String
  pub fetch : String → Option String
  pub result_values : String → List Json
  pub array : Json → List Json
  pub int_of_float : Json → ℤ
  pub min_float : ℤ → ℤ → ℤ

module _ (sampler : Sampler) where
  -- rand.Intn, which panics unless its argument is positive.
  abbrev pub draw : String → ℤ → Result ℤ
  draw uid (pos (suc n)) = ok (pos (sampler.intn uid (suc n)))
  draw uid (pos zero) = panic
  draw uid (negsuc n) = panic

  unfoldable pub random : String → Range → Result ℤ
  random uid range =
      if eqb_ℤ range.min range.max
      then ok range.min
      else (draw uid (wrap_int64 (range.max -ℤ range.min)) >>= λ n.
          ok (wrap_int64 (range.min +ℤ n)))

  abbrev pub query : String → String
  query uid =
      String.◌++◌
        "(rate(revision_app_request_count[1m]) + on(pod) group_left(uid) kube_pod_info{uid=\""
        (String.◌++◌ uid "\"})")

  abbrev pub query_url : String → String
  query_url uid =
      String.◌++◌ sampler.prometheus_base_url
        (String.◌++◌ "/api/v1/query?" (sampler.encode_query (query uid)))

  -- val[1], or 0 where there is none.
  abbrev pub second_element : List sampler.Json → ℤ
  second_element [] = pos 0
  second_element (time ∷ []) = pos 0
  second_element (time ∷ rate ∷ more) = sampler.int_of_float rate

  abbrev pub first_rate : List sampler.Json → ℤ
  first_rate [] = pos 0
  first_rate (value ∷ values) = second_element (sampler.array value)

  abbrev pub rate_of_answer : Option String → ℤ
  rate_of_answer none = pos 0
  rate_of_answer (some body) = first_rate (sampler.result_values body)

  unfoldable pub knative_utilization : String → ℤ
  knative_utilization uid = rate_of_answer (sampler.fetch (query_url uid))

  abbrev pub used_by : String → GpuUsageStatus → Result ℤ
  used_by uid usage =
      if usage.use_knative_utilization
      then ok (knative_utilization uid)
      else random uid usage.utilization

  -- The loop over the map, from a sum.
  unfoldable pub utilization_sum : PodGpuUsageStatusMap → ℤ → Result ℤ
  unfolding random
  utilization_sum [] sum = ok sum
  utilization_sum ((uid, usage) ∷ rest) sum =
      used_by uid usage >>= λ used. utilization_sum rest (wrap_int64 (sum +ℤ used))

  unfoldable pub utilization : PodGpuUsageStatusMap → Result ℤ
  unfolding utilization_sum
  utilization usages =
      utilization_sum usages (pos 0) >>= λ sum. ok (sampler.min_float (pos 100) sum)

  unfoldable pub fb_used_sum : PodGpuUsageStatusMap → ℤ → ℤ
  fb_used_sum [] sum = sum
  fb_used_sum ((uid, usage) ∷ rest) sum = fb_used_sum rest (wrap_int64 (sum +ℤ usage.fb_used))

  unfoldable pub fb_used : PodGpuUsageStatusMap → ℤ → ℤ
  unfolding fb_used_sum
  fb_used usages fb_total = sampler.min_float fb_total (fb_used_sum usages (pos 0))
