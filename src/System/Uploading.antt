-- ===== src/System/Uploading.antt =====
-- Uploads keep what holds in every state of the service.
use invoice_ocr_poc.Base.{
  ◌≤◌, ◌<◌, none, some, ◌≡◌, inl, inr, refl, sym, ap, subst, ◌∙◌, String, arith, ◌∷◌, Option-cases,
  Bool-cases, not, ◌||◌,
}
use invoice_ocr_poc.Float.{Float}
use invoice_ocr_poc.Errors.{Ctx, Error}
use invoice_ocr_poc.Store.Invoice.{Invoice}
use invoice_ocr_poc.Store.Db.{IsDb}
use invoice_ocr_poc.Service.Types.{Service, new_job}
use invoice_ocr_poc.Service.Uploads.{IsQueue, Upload, Uploads, Intake, UploadSights}
use invoice_ocr_poc.Worker.Stage.{count}
use invoice_ocr_poc.Worker.Pipeline.{
  PipelineOptions, Pipeline, enqueue, has_room, submit, Reachable, then_step,
}
use invoice_ocr_poc.System.Intake.{enqueue-SubmitsOnly}
use invoice_ocr_poc.System.Counts.{times, SameWork, enqueue-SameWork}
use invoice_ocr_poc.System.Steps.{Line, System, put, IsFresh, submit_job, intake_of, uploaded}
use invoice_ocr_poc.System.Invariant.{
  Ok, IsDone, in_place, put_same, put_other, str_eq-cases, times_other,
}

times-enqueue :
    (entry at_select : Ctx) (id k : String) (p : Pipeline String)
    → times k (enqueue entry at_select id p).0.accepted ≤ times k (id ∷ p.accepted)
unfolding enqueue times count
times-enqueue (some c) at_select id k p = ground arith
times-enqueue none at_select id k p = elim (Bool-cases (not p.started || p.stopped)) [
  | inl refused ↦ rw (enqueue, refused) (ground arith)
  | inr going ↦ elim (Option-cases at_select) [
    | inr (c, ended) ↦ rw (enqueue, going, ended) (ground arith)
    | inl waiting ↦ elim (Bool-cases (has_room p.prep)) [
      | inr full ↦ rw (enqueue, going, waiting, full) (ground arith)
      | inl room ↦ rw (enqueue, going, waiting, room) (omega arith)
    ]
  ]
]

fresh_times :
    (id k : String) (p q : Pipeline String)
    → times id p.accepted ≡ 0
    → times k p.accepted ≤ 1
    → times k q.accepted ≤ times k (id ∷ p.accepted)
    → times k q.accepted ≤ 1
unfolding times count
fresh_times id k p q fresh once more = elim (str_eq-cases k id) [
  | inl e ↦ let none_yet = subst (λ i. times i p.accepted ≡ 0) (sym e) fresh in ground arith
  | inr n ↦ let other = times_other k id n in ground arith
]

enqueue-refused_same :
    (entry at_select : Ctx) (id : String) (p : Pipeline String) (e : Error)
    → (enqueue entry at_select id p).1 ≡ some e
    → (enqueue entry at_select id p).0 ≡ p
unfolding enqueue
enqueue-refused_same (some c) at_select id p e h = refl
enqueue-refused_same none at_select id p e h = elim (Bool-cases (not p.started || p.stopped)) [
  | inl refused ↦ rw (enqueue, refused) refl
  | inr going ↦ elim (Option-cases at_select) [
    | inr (c, ended) ↦ rw (enqueue, going, ended) refl
    | inl waiting ↦ elim (Bool-cases (has_room p.prep)) [
      | inr full ↦ rw (enqueue, going, waiting, full) refl
      | inl room ↦ absurd (cc (rw (enqueue, going, waiting, room) at h))
    ]
  ]
]

module _ {F : Type 0} ⦃d : Float F⦄ where
  -- What an upload keeps of the pipeline and its jobs.
  record LineKept (opts : PipelineOptions) (l m : Line F) : Type 0 where
    pub reached : Reachable opts m.pipe
    pub same_work : SameWork l.pipe m.pipe
    pub once : (k : String) → times k m.pipe.accepted ≤ 1
    pub own : (k : String) → (m.jobs k).inv.id ≡ k

  submit_job-LineKept :
      {opts : PipelineOptions} (entry at_select : Ctx) (inv : Invoice F) (l : Line F)
      → Reachable opts l.pipe
      → times inv.id l.pipe.accepted ≡ 0
      → ((k : String) → times k l.pipe.accepted ≤ 1)
      → ((k : String) → (l.jobs k).inv.id ≡ k)
      → LineKept opts l (submit_job entry at_select inv l).0
  unfolding submit_job
  submit_job-LineKept entry at_select inv l r fresh once own =
      let q = (enqueue entry at_select inv.id l.pipe).0 in
      let reached = then_step r (submit entry at_select inv.id) in
      let work = enqueue-SameWork entry at_select inv.id l.pipe in
      let once' : (k : String) → times k q.accepted ≤ 1 = λ k.
        fresh_times inv.id k l.pipe q fresh (once k)
          (times-enqueue entry at_select inv.id k l.pipe) in
      elim (Option-cases (enqueue entry at_select inv.id l.pipe).1) [
        | inr (e, refused) ↦
            rw (submit_job, refused)
              (record { reached = reached; same_work = work; once = once'; own = own })
        | inl accepted ↦
            rw (submit_job, accepted)
              (record {
                reached = reached;
                same_work = work;
                once = once';
                own = λ k. elim (str_eq-cases inv.id k) [
                  | inl e ↦
                      subst (λ i. (put inv.id (new_job inv) l.jobs i).inv.id ≡ i) e
                        (ap (λ j. j.inv.id) (put_same inv.id (new_job inv) l.jobs))
                  | inr n ↦ ap (λ j. j.inv.id) (put_other inv.id k (new_job inv) l.jobs n) ∙ own k
                ];
              })
      ]

  -- The pipeline keeps no job that it refuses.
  submit_job-IsQueue : IsQueue {F = F} {J = Line F} submit_job
  unfolding submit_job
  submit_job-IsQueue = record {
    refused_same = λ entry at_select inv l e h.
        elim (Option-cases (enqueue entry at_select inv.id l.pipe).1) [
          | inl accepted ↦ absurd (cc (rw (submit_job, accepted) at h))
          | inr (f, refused) ↦
              let same = enqueue-refused_same entry at_select inv.id l.pipe f refused in
              rw (submit_job, refused) (ap (λ p. record l { pipe = p }) same)
        ];
  }

module _ {F T C D B : Type 0} ⦃d : Float F⦄ (s : Service F T C) (laws : IsDb s.db)
    (u : Uploads F T D B (Line F)) where
  pub uploaded-Ok :
      {opts : PipelineOptions} {x : System F T C D} (input : Upload B) (o : UploadSights)
      → Ok s laws opts x
      → IsFresh o.id x.line.pipe
      → Ok s laws opts (uploaded s u input o x)
  unfolding uploaded times
  uploaded-Ok {opts = opts} {x = x} input o h fresh =
      let taken : Intake T D (Line F) = record {
        store = x.world.store;
        files = x.files;
        jobs = x.line;
      } in
      let y = uploaded s u input o x in
      let (rows, sent) = enqueue-SubmitsOnly (intake_of s u) laws input o taken in
      let line : LineKept opts x.line y.line = elim sent [
        | inl same ↦ subst (LineKept opts x.line) (sym same) (record {
          reached = h.reachable;
          same_work = (refl, refl, refl, refl);
          once = h.unique;
          own = h.own;
        })
        | inr (inv, drawn, same) ↦ subst (LineKept opts x.line) (sym same) (
            submit_job-LineKept o.at_entry o.at_select inv x.line h.reachable
              (subst (λ r. IsFresh r x.line.pipe) drawn fresh) h.unique h.own)
      ] in
      let (prep, ocr, jev, ended) = line.same_work in
      let kept : (k : String)
          → 0 < times k x.line.pipe.accepted
          → IsDone s laws x k
          → IsDone s laws y k =
        λ k old (inv, row, finished). (
          inv,
          rows k (λ e. absurd (omega (arith, old, subst (λ r. IsFresh r x.line.pipe) e fresh)))
              ∙ row,
          finished,
        ) in
      record {
        reachable = line.reached;
        unique = line.once;
        own = line.own;
        at_workers = λ k r e. omega (
          arith,
          h.at_workers k r e,
          ap (times k) prep,
          ap (λ z. times k z.busy) ocr,
          ap (λ z. times k z.busy) jev,
        );
        done_rows = λ k there.
            let before : 0 < times k x.line.pipe.done = omega (arith, there, ap (times k) ended) in
            kept k (omega (arith, before, in_place s laws h k)) (h.done_rows k before);
        jev_rows = λ k there e.
            let before : 0 < times k x.line.pipe.jev.busy =
              omega (arith, there, ap (λ z. times k z.busy) jev) in
            kept k (omega (arith, before, in_place s laws h k)) (h.jev_rows k before e);
      }
