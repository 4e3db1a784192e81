-- ===== src/Worker/Stage.antt =====
-- internal/worker/pool.go: `runStage`, as the steps of the workers that share one channel.
use invoice_ocr_poc.Base.{
  ℕ, ◌+◌, Bool, true, false, List, [], ◌∷◌, ◌≡◌, refl, ◌⊎◌, length, arith, if◌then◌else◌,
}

-- A channel and the workers that read it: those that wait, the jobs of those that are at work (or that
-- wait to send a job on), and the number of those that have returned.
pub record Stage (J : Type 0) : Type 0 where
  pub queue : List J
  pub capacity : ℕ
  pub closed : Bool
  pub idle : ℕ
  pub busy : List J
  pub exited : ℕ

-- What a step of a worker does outside of its stage: nothing, a job sent on, a job whose stage
-- failed, or a job given up because the pipeline's context has ended.
pub data Label (J : Type 0) : Type 0 where
  quiet : Label J
  emits : J → Label J
  fails : J → Label J
  drops : J → Label J

-- One job of a list, and the others.
pub data Picks {J : Type 0} : J → List J → List J → Type 0 where
  here : {j : J} {js : List J} → Picks j (j ∷ js) js
  there : {j k : J} {js rest : List J} → Picks j js rest → Picks j (k ∷ js) (k ∷ rest)

module _ {J : Type 0} where
  -- Why a worker may return instead of taking a job: its channel is closed and empty, or the
  -- pipeline's context has ended.
  abbrev pub MayLeave : Bool → Stage J → Type 0
  MayLeave canceled s = ((s.closed ≡ true) × (s.queue ≡ [])) ⊎ (canceled ≡ true)

  -- The states of a stage after a step of one worker.
  abbrev pub taken : Stage J → List J → ℕ → J → Stage J
  taken s queue idle j = record s { queue = queue; idle = idle; busy = j ∷ s.busy }

  abbrev pub freed : Stage J → List J → Stage J
  freed s rest = record s { busy = rest; idle = s.idle + 1 }

  abbrev pub gave_up : Stage J → List J → Stage J
  gave_up s rest = record s { busy = rest; exited = s.exited + 1 }

  abbrev pub left : Stage J → ℕ → Stage J
  left s idle = record s { idle = idle; exited = s.exited + 1 }

-- A step of a worker; the flag tells whether the pipeline's context has ended.
pub data StageStep {J : Type 0} : Bool → Stage J → Label J → Stage J → Type 0 where
  take :
      {canceled : Bool} {s : Stage J} {j : J} {queue : List J} {idle : ℕ}
      → s.queue ≡ j ∷ queue
      → s.idle ≡ idle + 1
      → StageStep canceled s quiet (taken s queue idle j)
  emit :
      {canceled : Bool} {s : Stage J} {j : J} {rest : List J}
      → Picks j s.busy rest
      → StageStep canceled s (emits j) (freed s rest)
  fail :
      {canceled : Bool} {s : Stage J} {j : J} {rest : List J}
      → Picks j s.busy rest
      → StageStep canceled s (fails j) (freed s rest)
  drop :
      {canceled : Bool} {s : Stage J} {j : J} {rest : List J}
      → canceled ≡ true
      → Picks j s.busy rest
      → StageStep canceled s (drops j) (gave_up s rest)
  leave :
      {canceled : Bool} {s : Stage J} {idle : ℕ}
      → MayLeave canceled s
      → s.idle ≡ idle + 1
      → StageStep canceled s quiet (left s idle)

module _ {J : Type 0} where
  -- A fresh stage with its workers.
  unfoldable pub new_stage : ℕ → ℕ → Stage J
  new_stage workers capacity = record {
    queue = [];
    capacity = capacity;
    closed = false;
    idle = workers;
    busy = [];
    exited = 0;
  }

  unfoldable pub push : J → List J → List J
  push j [] = j ∷ []
  push j (x ∷ xs) = x ∷ push j xs

  unfoldable pub send : J → Stage J → Stage J
  unfolding push
  send j s = record s { queue = push j s.queue }

  unfoldable pub close_channel : Stage J → Stage J
  close_channel s = record s { closed = true }

  -- The number of jobs of a list that a test accepts.
  unfoldable pub count : (J → Bool) → List J → ℕ
  count f [] = 0
  count f (j ∷ js) = let rest = count f js in if f j then rest + 1 else rest

  pub count-push : (f : J → Bool) (j : J) (js : List J) → count f (push j js) ≡ count f (j ∷ js)
  unfolding count push
  count-push f j [] = refl
  count-push f j (x ∷ xs) = let rest = count-push f j xs in ground arith

  pub length-push : (j : J) (js : List J) → length (push j js) ≡ length js + 1
  unfolding push
  length-push j [] = refl
  length-push j (x ∷ xs) = let rest = length-push j xs in ground arith

  pub count-Picks :
      {j : J} {js rest : List J} (f : J → Bool) → Picks j js rest → count f js ≡ count f (j ∷ rest)
  unfolding count
  count-Picks f here = refl
  count-Picks f (there p) = let less = count-Picks f p in ground arith

  pub length-Picks : {j : J} {js rest : List J} → Picks j js rest → length js ≡ length rest + 1
  length-Picks here = omega arith
  length-Picks (there p) = let less = length-Picks p in omega arith
