-- ===== src/DomainPlugin/Steps.antt =====
-- The checkpoint as a state machine: what a call of Prepare or of Unprepare may do to it.
use fake_gpu_operator.Base.{ℕ, String, ◌≡◌, refl, true, false, List}
use fake_gpu_operator.Base.Dict.{lookup}
use fake_gpu_operator.DomainPlugin.{
  Checkpoint, PreparedDevice, new_checkpoint, prepared, unprepared,
}
use fake_gpu_operator.DomainPlugin.Valid.{
  is_prepared, IsValid, prepared-IsValid, unprepared-IsValid,
}

pub data Step (cp : Checkpoint) : Checkpoint → Type 0 where
  prepares :
      (uid domain_id : String) (now : ℕ) (devices : List PreparedDevice)
      → is_prepared uid cp ≡ false
      → Step cp (prepared uid domain_id now devices cp)
  unprepares : (uid : String) → is_prepared uid cp ≡ true → Step cp (unprepared uid cp)

pub data Reach (start : Checkpoint) : Checkpoint → Type 0 where
  here : Reach start start
  next : {cp cp' : Checkpoint} → Reach start cp → Step cp cp' → Reach start cp'

pub Step-IsValid : {cp cp' : Checkpoint} → Step cp cp' → IsValid cp → IsValid cp'
Step-IsValid {cp} (prepares uid id now devices new) valid =
    prepared-IsValid uid id now devices cp new valid
Step-IsValid {cp} (unprepares uid known) valid = unprepared-IsValid uid cp valid

pub Reach-IsValid : {start cp : Checkpoint} → IsValid start → Reach start cp → IsValid cp
Reach-IsValid valid here = valid
Reach-IsValid valid (next steps step) = Step-IsValid step (Reach-IsValid valid steps)

pub new_checkpoint-IsValid : IsValid new_checkpoint
unfolding lookup
new_checkpoint-IsValid = record { listed = λ u. refl; in_use = tt }
