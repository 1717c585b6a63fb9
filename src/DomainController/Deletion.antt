-- ===== src/DomainController/Deletion.antt =====
-- The deletion of a compute domain: its finalizer holds it until its template was released.
use fake_gpu_operator.Base.{String}
use fake_gpu_operator.Base.Result.{Result}
use fake_gpu_operator.DomainController.{ComputeDomain, DomainApi}
use fake_gpu_operator.DomainController.Laws.{Deletes, Released}

module _ (api : DomainApi) (k : Deletes api) (d : ComputeDomain) where
  -- The template that is named is released.
  abbrev IsReleased : api.State → String → String → Type 0
  IsReleased s namespace name = Released api d (api.get_template s namespace name)
