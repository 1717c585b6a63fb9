-- ===== src/GpuUsage/Rates.antt =====
-- The rate of requests that is measured for a pod.
use fake_gpu_operator.Base.{
  ℕ, suc, ◌^◌, ◌≤◌, ◌≡◌, refl, ap, ◌∙◌, String, none, some, Option-cases, ◌⊎◌, inl, inr, List, [],
  ◌∷◌, length, arith,
}
use fake_gpu_operator.Base.Int.{pos, min_ℤ}
use fake_gpu_operator.GpuUsage.{
  Sampler, query_url, second_element, first_rate, rate_of_answer, knative_utilization,
}

-- rand.Intn is below its argument; the rate that Prometheus answers for a pod, which the code reads
-- from a fetched text, is not negative and, as an int, at most 2^32; float64 is exact to 2^53.
pub record Samples (sampler : Sampler) : Type 0 where
  pub intn_below : (uid : String) (n : ℕ) → sampler.intn uid (suc n) ≤ n
  pub rate_small :
      (uid body : String) (value time rate : sampler.Json) (values more : List sampler.Json)
      → sampler.fetch (query_url sampler uid) ≡ some body
      → sampler.result_values body ≡ value ∷ values
      → sampler.array value ≡ time ∷ rate ∷ more
      → (n : ℕ) × (sampler.int_of_float rate ≡ pos n) × (n ≤ 2 ^ 32)
  pub exact :
      (a b : ℕ)
      → a ≤ 2 ^ 53
      → b ≤ 2 ^ 53
      → sampler.min_float (pos a) (pos b) ≡ min_ℤ (pos a) (pos b)

-- The rate of a pod: the number of the answer, or 0 where Prometheus does not answer or answers with
-- no value or with one that has no second element.
pub data IsRate (sampler : Sampler) (uid : String) : ℕ → Type 0 where
  unanswered : sampler.fetch (query_url sampler uid) ≡ none → IsRate sampler uid 0
  no_value :
      (body : String)
      → sampler.fetch (query_url sampler uid) ≡ some body
      → sampler.result_values body ≡ []
      → IsRate sampler uid 0
  short_value :
      (body : String) (value : sampler.Json) (values : List sampler.Json)
      → sampler.fetch (query_url sampler uid) ≡ some body
      → sampler.result_values body ≡ value ∷ values
      → length (sampler.array value) ≤ 1
      → IsRate sampler uid 0
  answered :
      (body : String) (value time rate : sampler.Json) (values more : List sampler.Json) (n : ℕ)
      → sampler.fetch (query_url sampler uid) ≡ some body
      → sampler.result_values body ≡ value ∷ values
      → sampler.array value ≡ time ∷ rate ∷ more
      → sampler.int_of_float rate ≡ pos n
      → IsRate sampler uid n

module _ (sampler : Sampler) (k : Samples sampler) where
  first_rate-IsRate :
      (uid body : String) (values : List sampler.Json)
      → sampler.fetch (query_url sampler uid) ≡ some body
      → sampler.result_values body ≡ values
      → (n : ℕ) × (first_rate sampler values ≡ pos n) × (n ≤ 2 ^ 32) × IsRate sampler uid n
  first_rate-IsRate uid body [] f v = (0, refl, omega arith, no_value body f v)
  first_rate-IsRate uid body (value ∷ values) f v = go (sampler.array value) refl
    where
      short :
          sampler.array value ≡ [] ⊎ ((time : sampler.Json) × (sampler.array value ≡ time ∷ []))
          → IsRate sampler uid 0
      short (inl e) = short_value body value values f v (rw e (omega arith))
      short (inr (time, e)) = short_value body value values f v (rw e (omega arith))

      go :
          (elements : List sampler.Json)
          → sampler.array value ≡ elements
          → (n : ℕ) × (first_rate sampler (value ∷ values) ≡ pos n)
            × (n ≤ 2 ^ 32)
            × IsRate sampler uid n
      go [] e = (0, ap (second_element sampler) e, omega arith, short (inl e))
      go (time ∷ []) e = (0, ap (second_element sampler) e, omega arith, short (inr (time, e)))
      go (time ∷ rate ∷ more) e =
          let (n, is, small) = k.rate_small uid body value time rate values more f v e in
          (
            n,
            ap (second_element sampler) e ∙ is,
            small,
            answered body value time rate values more n f v e is,
          )

  pub knative_utilization-IsRate :
      (uid : String)
      → (n : ℕ) × (knative_utilization sampler uid ≡ pos n) × (n ≤ 2 ^ 32) × IsRate sampler uid n
  unfolding knative_utilization
  knative_utilization-IsRate uid = elim (Option-cases (sampler.fetch (query_url sampler uid))) [
    | inl e ↦ (0, ap (rate_of_answer sampler) e, omega arith, unanswered e)
    | inr (body, e) ↦
        let (n, is, small, rate) = first_rate-IsRate uid body (sampler.result_values body) e refl in
        (n, ap (rate_of_answer sampler) e ∙ is, small, rate)
  ]
