-- ===== src/System/Invariant.antt =====
-- What holds in every state of the service, and that the runs of the stages keep it.
use invoice_ocr_poc.Base.{
  ℕ, ◌+◌, ◌≤◌, ◌<◌, ◌≢◌, none, some, Option, ◌≡◌, ◌⊎◌, inl, inr, sym, ap, subst, ◌∙◌, String,
  str_eq, eq_iff, arith, [], ◌∷◌, List,
}
use invoice_ocr_poc.Float.{Float}
use invoice_ocr_poc.Errors.{Error}
use invoice_ocr_poc.Store.Invoice.{Invoice, done}
use invoice_ocr_poc.Store.Db.{IsDb}
use invoice_ocr_poc.Store.Persistence.{row_of}
use invoice_ocr_poc.Service.Types.{Service, Outcome}
use invoice_ocr_poc.Service.Stages.{stage_jev}
use invoice_ocr_poc.Service.Stages.Done.{stage_jev_done}
use invoice_ocr_poc.Worker.Stage.{Picks, count, count-Picks}
use invoice_ocr_poc.Worker.Pipeline.{PipelineOptions, Reachable}
use invoice_ocr_poc.Worker.Conservation.{held, total, accepted_jobs_kept}
use invoice_ocr_poc.System.Isolation.{Keeps, stage_preprocess-Keeps, stage_ocr-Keeps}
use invoice_ocr_poc.System.Isolation.LastStage.{stage_jev-Keeps}
use invoice_ocr_poc.System.Counts.{times, at_work}
use invoice_ocr_poc.System.Steps.{System, put, StageRun, preprocesses, recognizes, judges, returned}

pub put_same {ℓ} : {A : Type ℓ} (id : String) (a : A) (f : String → A) → put id a f id ≡ a
put_same id a f = ground (arith, eq_iff id id)

pub put_other {ℓ} :
    {A : Type ℓ} (id k : String) (a : A) (f : String → A) → id ≢ k → put id a f k ≡ f k
put_other id k a f n = ground (arith, eq_iff id k)

pub str_eq-cases : (a b : String) → (a ≡ b) ⊎ (a ≢ b)
str_eq-cases a b = ground (arith, eq_iff a b)

pub times_one : (id : String) → times id (id ∷ []) ≡ 1
unfolding times count
times_one id = ground (arith, eq_iff id id)

pub times_other : (id k : String) → id ≢ k → times id (k ∷ []) ≡ 0
unfolding times count
times_other id k n = ground (arith, eq_iff id k)

picked : (id : String) (ids rest : List String) → Picks id ids rest → 0 < times id ids
unfolding times count
picked id ids rest p =
    let one = count-Picks (str_eq id) p in let self = times_one id in ground (arith, eq_iff id id)

pub some_injective {ℓ} : {A : Type ℓ} (a b : A) → some a ≡ some b → a ≡ b
some_injective a b h = cc

module _ {F T C D : Type 0} ⦃d : Float F⦄ (s : Service F T C) (laws : IsDb s.db) where
  -- Whatever stage runs on a job, it keeps the identifier of the job's invoice, and every row but the
  -- one under it is as before the run.
  pub StageRun-Keeps :
      {x : System F T C D} {id : String} {out : Outcome F T C}
      → StageRun s x id out
      → Keeps s laws (x.line.jobs id).inv.id x.world.store out
  StageRun-Keeps {x = x} {id = id} (preprocesses o p) =
      stage_preprocess-Keeps s laws o x.world (x.line.jobs id)
  StageRun-Keeps {x = x} {id = id} (recognizes tess ollama o p) =
      stage_ocr-Keeps s laws tess ollama o x.world (x.line.jobs id)
  StageRun-Keeps {x = x} {id = id} (judges text_of judge assist open_router t o p) =
      stage_jev-Keeps s laws text_of judge assist open_router t o x.world (x.line.jobs id)

  -- The row under an identifier is of an invoice that is done.
  abbrev pub IsDone : System F T C D → String → Type 0
  IsDone x id =
      (inv : Invoice F) × (row_of s.db laws x.world.store id ≡ some inv) × (inv.status ≡ done)

  abbrev pub busy : String → System F T C D → ℕ
  busy id x = at_work id x.line.pipe

  -- What holds in every state of the service.
  pub record Ok (opts : PipelineOptions) (x : System F T C D) : Type 0 where
    pub reachable : Reachable opts x.line.pipe
    pub unique : (id : String) → times id x.line.pipe.accepted ≤ 1
    pub own : (id : String) → (x.line.jobs id).inv.id ≡ id
    pub at_workers :
        (id : String) (r : Option Error) → x.ran id ≡ some r → 0 < at_work id x.line.pipe
    pub done_rows : (id : String) → 0 < times id x.line.pipe.done → IsDone x id
    pub jev_rows :
        (id : String) → 0 < times id x.line.pipe.jev.busy → x.ran id ≡ some none → IsDone x id

  -- Done, at a worker or in front of the last stage: an identifier stands in one place.
  pub in_place :
      {opts : PipelineOptions} {x : System F T C D}
      → Ok opts x
      → (id : String)
      → times id x.line.pipe.done + busy id x + times id x.line.pipe.jev.queue
        ≤ times id x.line.pipe.accepted
  unfolding times total held
  in_place {x = x} h id =
      let balance = accepted_jobs_kept (str_eq id) h.reachable in omega (arith, balance)

  pub one_place :
      {opts : PipelineOptions} {x : System F T C D}
      → Ok opts x
      → (id : String) → times id x.line.pipe.done + busy id x + times id x.line.pipe.jev.queue ≤ 1
  one_place h id = omega (arith, in_place h id, h.unique id)

  StageRun-Keeps_own :
      {opts : PipelineOptions} {x : System F T C D} {id : String} {out : Outcome F T C}
      → Ok opts x
      → StageRun s x id out
      → Keeps s laws id x.world.store out
  StageRun-Keeps_own {x = x} {id = id} {out = out} h run =
      subst (λ k. Keeps s laws k x.world.store out) (h.own id) (StageRun-Keeps run)

  -- A run of the last stage without an error leaves the row done. The job stands nowhere else.
  abbrev Effect : System F T C D → String → Outcome F T C → Type 0
  Effect x id out =
      (0 < busy id x)
      × (out.2 ≡ none
          → 0 < times id x.line.pipe.jev.busy
          → (row_of s.db laws out.0.store id ≡ some out.1.inv) × (out.1.inv.status ≡ done))

  StageRun-Effect :
      {opts : PipelineOptions} {x : System F T C D} {id : String} {out : Outcome F T C}
      → Ok opts x
      → StageRun s x id out
      → Effect x id out
  StageRun-Effect {x = x} h (preprocesses {id = id} {rest = rest} o p) =
      let here = picked id x.line.pipe.prep.busy rest p in
      (omega (arith, here), λ fine last. absurd (omega (arith, here, one_place h id, last)))
  StageRun-Effect {x = x} h (recognizes {id = id} {rest = rest} tess ollama o p) =
      let here = picked id x.line.pipe.ocr.busy rest p in
      (omega (arith, here), λ fine last. absurd (omega (arith, here, one_place h id, last)))
  StageRun-Effect {x = x} h
        (judges {id = id} {rest = rest} text_of judge assist open_router t o p) =
      let here = picked id x.line.pipe.jev.busy rest p in
      let job = x.line.jobs id in
      let out = stage_jev s text_of judge assist open_router t o x.world job in
      let kept = StageRun-Keeps_own h (judges text_of judge assist open_router t o p) in
      (
        omega (arith, here),
        λ fine last. elim (stage_jev_done s laws text_of judge assist open_router t o x.world job) [
          | inl (e, bad) ↦ absurd (cc (fine, bad))
          | inr (finished, row) ↦
              (ap (λ k. row_of s.db laws out.0.store k) (sym kept.0) ∙ row, finished)
        ],
      )

  pub returned-Ok :
      {opts : PipelineOptions} {x : System F T C D} {id : String} {out : Outcome F T C}
      → Ok opts x
      → StageRun s x id out
      → x.ran id ≡ none
      → Ok opts (returned id out x)
  unfolding returned
  returned-Ok {x = x} {id = id} {out = out} h run idle =
      let (same, rows) = StageRun-Keeps_own h run in
      let (here, stored) = StageRun-Effect h run in
      let y = returned id out x in
      let kept : (k : String) → id ≢ k → IsDone x k → IsDone y k =
        λ k n (inv, row, finished). (inv, rows k n ∙ row, finished) in
      let now : 0 < times id x.line.pipe.jev.busy
          → put id (some out.2) x.ran id ≡ some none
          → IsDone y id =
        λ there q.
          let fine : out.2 ≡ none = some_injective _ _ (sym (put_same id (some out.2) x.ran) ∙ q) in
          let (row, finished) = stored fine there in (out.1.inv, row, finished) in
      record {
        reachable = h.reachable;
        unique = h.unique;
        own = λ k. elim (str_eq-cases id k) [
          | inl e ↦
              subst (λ i. (put id out.1 x.line.jobs i).inv.id ≡ i) e
                (ap (λ j. j.inv.id) (put_same id out.1 x.line.jobs) ∙ same)
          | inr n ↦ ap (λ j. j.inv.id) (put_other id k out.1 x.line.jobs n) ∙ h.own k
        ];
        at_workers = λ k r q. elim (str_eq-cases id k) [
          | inl e ↦ subst (λ i. 0 < busy i x) e here
          | inr n ↦ h.at_workers k r (sym (put_other id k (some out.2) x.ran n) ∙ q)
        ];
        done_rows = λ k there. elim (str_eq-cases id k) [
          | inl e ↦
              let once = one_place h k in
              let here' = subst (λ i. 0 < busy i x) e here in
              absurd (omega (arith, once, here', there))
          | inr n ↦ kept k n (h.done_rows k there)
        ];
        jev_rows = λ k there q. elim (str_eq-cases id k) [
          | inl e ↦
              subst
                (λ i.
                  0 < times i x.line.pipe.jev.busy
                  → put id (some out.2) x.ran i ≡ some none
                  → IsDone y i)
                e now there q
          | inr n ↦ kept k n (h.jev_rows k there (sym (put_other id k (some out.2) x.ran n) ∙ q))
        ];
      }
