-- ===== src/Worker/Invariant.antt =====
-- What holds of a stage, and of a whole pipeline, in whatever order its goroutines run.
use invoice_ocr_poc.Base.{
  ℕ, ◌+◌, ◌≤◌, Bool, true, false, List, [], ◌∷◌, ◌≡◌, refl, ◌⊎◌, inl, inr, length, arith, ltb→lt,
}
use invoice_ocr_poc.Worker.Stage.{
  Stage, Label, Picks, here, there, StageStep, take, emit, fail, drop, leave, new_stage, send,
  close_channel, length-push, freed, length-Picks,
}
use invoice_ocr_poc.Worker.Pipeline.{has_room, AllLeft}

-- A stage with `workers` workers and room for `capacity` jobs. A worker returns early only if the
-- pipeline's context has ended.
pub record StageOk {J : Type 0} (workers capacity : ℕ) (canceled : Bool) (s : Stage J)
    : Type 0 where
  pub same_capacity : s.capacity ≡ capacity
  pub fits : length s.queue ≤ capacity
  pub all_workers : s.idle + length s.busy + s.exited ≡ workers
  pub returns : (canceled ≡ true) ⊎ (s.exited ≡ 0) ⊎ ((s.closed ≡ true) × (s.queue ≡ []))

module _ {J : Type 0} where
  pub new_ok : (n k : ℕ) → StageOk n k false (new_stage {J = J} n k)
  unfolding new_stage
  new_ok n k = record {
    same_capacity = refl;
    fits = omega arith;
    all_workers = omega arith;
    returns = inr (inl refl);
  }

  shorter : {j : J} {js rest : List J} {n : ℕ} → js ≡ j ∷ rest → length js ≤ n → length rest ≤ n
  shorter q h = let longer = rw q at h in omega arith

  still_returns :
      {c closed : Bool} {x : ℕ} {j : J} {js rest : List J}
      → js ≡ j ∷ rest
      → (c ≡ true) ⊎ (x ≡ 0) ⊎ ((closed ≡ true) × (js ≡ []))
      → (c ≡ true) ⊎ (x ≡ 0) ⊎ ((closed ≡ true) × (rest ≡ []))
  still_returns q (inl h) = inl h
  still_returns q (inr (inl h)) = inr (inl h)
  still_returns q (inr (inr (_, h))) = absurd (cc (q, h))

  freed_ok :
      {c : Bool} {s : Stage J} {j : J} {rest : List J} {n k : ℕ}
      → Picks j s.busy rest
      → StageOk n k c s
      → StageOk n k c (freed s rest)
  freed_ok p ok =
      let less = length-Picks p in
      record {
        same_capacity = ok.same_capacity;
        fits = ok.fits;
        all_workers = omega (arith, ok.all_workers);
        returns = ok.returns;
      }

  may_return :
      {c closed : Bool} {js : List J} {x : ℕ}
      → ((closed ≡ true) × (js ≡ [])) ⊎ (c ≡ true)
      → (c ≡ true) ⊎ (x ≡ 0) ⊎ ((closed ≡ true) × (js ≡ []))
  may_return (inl h) = inr (inr h)
  may_return (inr h) = inl h

  pub step_ok :
      {c : Bool} {s s' : Stage J} {l : Label J} {n k : ℕ}
      → StageStep c s l s'
      → StageOk n k c s
      → StageOk n k c s'
  step_ok (take q i) ok = record {
    same_capacity = ok.same_capacity;
    fits = shorter q ok.fits;
    all_workers = omega (arith, ok.all_workers);
    returns = still_returns q ok.returns;
  }
  step_ok (emit p) ok = freed_ok p ok
  step_ok (fail p) ok = freed_ok p ok
  step_ok (drop c p) ok =
      let less = length-Picks p in
      record {
        same_capacity = ok.same_capacity;
        fits = ok.fits;
        all_workers = omega (arith, ok.all_workers);
        returns = inl c;
      }
  step_ok (leave m i) ok = record {
    same_capacity = ok.same_capacity;
    fits = ok.fits;
    all_workers = omega (arith, ok.all_workers);
    returns = may_return m;
  }

  opened :
      {c closed : Bool} {x : ℕ} {js ks : List J}
      → closed ≡ false
      → (c ≡ true) ⊎ (x ≡ 0) ⊎ ((closed ≡ true) × (js ≡ []))
      → (c ≡ true) ⊎ (x ≡ 0) ⊎ ((closed ≡ true) × (ks ≡ []))
  opened o (inl h) = inl h
  opened o (inr (inl h)) = inr (inl h)
  opened o (inr (inr (h, _))) = absurd (cc (o, h))

  pub send_ok :
      {c : Bool} {n k : ℕ} (s : Stage J) (j : J)
      → has_room s ≡ true
      → s.closed ≡ false
      → StageOk n k c s
      → StageOk n k c (send j s)
  unfolding send
  send_ok s j room open_yet ok =
      let space = ltb→lt _ _ room in
      let longer = length-push j s.queue in
      record {
        same_capacity = ok.same_capacity;
        fits = omega (arith, ok.same_capacity);
        all_workers = ok.all_workers;
        returns = opened open_yet ok.returns;
      }

  closing :
      {c closed : Bool} {x : ℕ} {js : List J}
      → (c ≡ true) ⊎ (x ≡ 0) ⊎ ((closed ≡ true) × (js ≡ []))
      → (c ≡ true) ⊎ (x ≡ 0) ⊎ ((true ≡ true) × (js ≡ []))
  closing (inl h) = inl h
  closing (inr (inl h)) = inr (inl h)
  closing (inr (inr (_, h))) = inr (inr (refl, h))

  pub close_ok :
      {c : Bool} {s : Stage J} {n k : ℕ} → StageOk n k c s → StageOk n k c (close_channel s)
  unfolding close_channel
  close_ok ok = record {
    same_capacity = ok.same_capacity;
    fits = ok.fits;
    all_workers = ok.all_workers;
    returns = closing ok.returns;
  }

  pub cancel_ok : {c : Bool} {s : Stage J} {n k : ℕ} → StageOk n k c s → StageOk n k true s
  cancel_ok ok = record {
    same_capacity = ok.same_capacity;
    fits = ok.fits;
    all_workers = ok.all_workers;
    returns = inl refl;
  }

  pub step-closed :
      {c : Bool} {s s' : Stage J} {l : Label J} → StageStep c s l s' → s'.closed ≡ s.closed
  step-closed (take q i) = refl
  step-closed (emit p) = refl
  step-closed (fail p) = refl
  step-closed (drop c p) = refl
  step-closed (leave m i) = refl

  nobody : {j : J} {js rest : List J} → Picks j js rest → js ≡ [] → ⊥
  nobody here h = cc
  nobody (there p) h = cc

  -- A stage that all workers have left takes no step.
  pub AllLeft-stuck : {c : Bool} {s s' : Stage J} {l : Label J} → AllLeft s → StageStep c s l s' → ⊥
  AllLeft-stuck (i, b) (take q i') = ground arith
  AllLeft-stuck (i, b) (emit p) = nobody p b
  AllLeft-stuck (i, b) (fail p) = nobody p b
  AllLeft-stuck (i, b) (drop c p) = nobody p b
  AllLeft-stuck (i, b) (leave m i') = ground arith

  -- Before all workers have left a stage, the next one's channel is open.
  abbrev pub OpenUntil : Stage J → Stage J → Type 0
  OpenUntil s next = (next.closed ≡ false) ⊎ AllLeft s

  pub open_while :
      {c : Bool} {s s' : Stage J} {l : Label J} (next : Stage J)
      → StageStep c s l s'
      → OpenUntil s next
      → next.closed ≡ false
  open_while next step (inl h) = h
  open_while next step (inr h) = absurd (AllLeft-stuck h step)
