-- ===== src/Search/Probe/Verify/Answers.antt =====
-- crates/search/src/semantic_verification.rs: what `verify_candidate_probes` promises.
use lean_dup.Base.{
  ◌≤◌, ◌<◌, String, Bool, true, false, Option, some, List, [], ◌∷◌, any, length, if◌then◌else◌,
  FloatOps, All, All-append, ◌⊎◌, inl, inr, ◌==◌, ◌≡◌, refl, sym, subst, ap, ◌∙◌, arith, text_ord,
  sort_by,
}
use lean_dup.Search.Declaration.{HydratedDeclaration}
use lean_dup.Search.Evidence.{ProbePair, ProbeResult, ProbeObligation}
use lean_dup.Search.Ranking.Queue.{pairs_of}
use lean_dup.Search.Probe.{PlannedProbe, ProbeDecision}
use lean_dup.Search.Probe.Diagnostics.{ProbeDiagnostics, initial_diagnostics}
use lean_dup.Search.Probe.Classify.{SemanticVerificationInput, Prospect, classify}
use lean_dup.Search.Probe.Select.{
  ProbePlan, Selection, admit, charge, is_skipped, select_one, select, probe_order, unselected,
  selection, plan_probes, worker_probe, budget_skip,
}
use lean_dup.Search.Probe.Chunks.{
  WorkerError, ProbeCacheEntry, Run, Outcome, recoverable_probe_error,
}
use lean_dup.Search.Probe.Chunks.Recovery.{IsAnswered, run_probe_chunk-IsAnswered}
use lean_dup.Search.Probe.Verify.{
  ProbeBatch, Lookup, chunks, resolve, batch_of, probe_chunk, probe_missing, start, planned,
  verify_candidate_probes,
}
use lean_dup.Search.Probe.Verify.Chunked.{
  chunks-flat, chunks-nonempty, AreAnswered, run_chunks-AreAnswered,
}
use lean_dup.Search.Probe.Verify.Resolved.{
  is_readable, is_hit, IsHonest, resolve-IsResolved, resolve-hits,
}

-- What the code relies on: a batch that succeeds has a row for each of its pairs.
abbrev pub HasRows : (ProbeBatch → List ProbeResult ⊎ WorkerError) → Type 0
HasRows worker =
    (batch : ProbeBatch) (rows : List ProbeResult)
    → worker batch ≡ inl rows
    → All (λ pair. any (λ row. row.pair_id == pair.pair_id) rows ≡ true) batch.pairs

-- Every failure of the worker is one that the code recovers from.
abbrev pub FailsSafely : (ProbeBatch → List ProbeResult ⊎ WorkerError) → Type 0
FailsSafely worker =
    (batch : ProbeBatch) (error : WorkerError)
    → worker batch ≡ inr error
    → recoverable_probe_error error ≡ true

-- What the store holds under the key of a pair is a verdict on that pair.
abbrev pub IsKeyed :
    (ProbePair → HydratedDeclaration → HydratedDeclaration → ProbeObligation → String)
    → (String → Lookup)
    → Type 0
IsKeyed key cached =
    (pair : ProbePair) (left right : HydratedDeclaration) (obligation : ProbeObligation)
    → (row : ProbeResult) → cached (key pair left right obligation) ≡ Lookup.hit row
    → row.pair_id ≡ pair.pair_id

module _ {S : Type 0} (input : SemanticVerificationInput S) (float : FloatOps S)
    (key : ProbePair → HydratedDeclaration → HydratedDeclaration → ProbeObligation → String)
    (cached : String → Lookup) where
  admit-IsHonest :
      (d : ProbeDecision) (p : Prospect S) (s : Selection)
      → IsKeyed key cached
      → All (IsHonest cached) s.planned
      → All (IsHonest cached) (admit input key d p s).planned
  admit-IsHonest (ProbeDecision.worker_decision obligation) p s k h =
      All-append (IsHonest cached) s.planned (worker_probe input key p obligation ∷ []) h
        (λ row e. k _ p.anchor p.candidate.declaration obligation row e, tt)
  admit-IsHonest (ProbeDecision.unavailable_decision reason) p s k h = h

  select_one-IsHonest :
      (p : Prospect S) (s : Selection) (skipped : Bool)
      → is_skipped input key p s ≡ skipped
      → IsKeyed key cached
      → All (IsHonest cached) s.planned
      → All (IsHonest cached) (select_one input key p s).planned
  unfolding select_one
  select_one-IsHonest p s true e k h =
      subst
        (λ b.
          All (IsHonest cached)
            (if b
              then record s { diagnostics = budget_skip p.facts s.diagnostics }
              else admit input key p.decision p (charge input key p s)).planned)
        (sym e) h
  select_one-IsHonest p s false e k h =
      subst
        (λ b.
          All (IsHonest cached)
            (if b
              then record s { diagnostics = budget_skip p.facts s.diagnostics }
              else admit input key p.decision p (charge input key p s)).planned)
        (sym e) (admit-IsHonest p.decision p (charge input key p s) k h)

  select-IsHonest :
      (ps : List (Prospect S)) (s : Selection)
      → IsKeyed key cached
      → All (IsHonest cached) s.planned
      → All (IsHonest cached) (select input key ps s).planned
  unfolding select
  select-IsHonest [] s k h = h
  select-IsHonest (p ∷ ps) s k h =
      select-IsHonest ps (select_one input key p s) k (select_one-IsHonest p s _ refl k h)

  planned-IsHonest :
      (d : ProbeDiagnostics)
      → IsKeyed key cached
      → All (IsHonest cached) (plan_probes input key float d).0.planned
  unfolding plan_probes selection
  planned-IsHonest d k =
      let (prospects, d') = classify input (pairs_of input.candidate_sets) d in
      select-IsHonest (sort_by (probe_order input key float) prospects) (unselected input key d') k
        tt

  module _ (root : String) (modules : List String)
      (worker : ProbeBatch → List ProbeResult ⊎ WorkerError) (display : WorkerError → String)
      (can_store : List ProbeCacheEntry → Bool) where
    abbrev pub plan : ProbePlan × ProbeDiagnostics
    plan = planned input float key root modules cached worker display can_store

    abbrev pub begun : Run
    begun = start input float key root modules cached worker display can_store plan

    abbrev pub verified : Outcome
    verified = verify_candidate_probes input float key root modules cached worker display can_store

    abbrev probing : Option (Run × List PlannedProbe) → Outcome
    probing = probe_missing input float key root modules cached worker display can_store

    enabled_run :
        input.enabled ≡ true
        → 0 < input.settings.budget
        → 0 < input.settings.chunk_size
        → verified ≡ probing (resolve cached plan.0.planned begun [])
    unfolding verify_candidate_probes
    enabled_run e b c = ground arith

    chunk_ends :
        HasRows worker
        → FailsSafely worker
        → ((entries : List ProbeCacheEntry) → can_store entries ≡ true)
        → (missing chunk : List PlannedProbe) (r : Run) → 1 ≤ length chunk
        → (r' : Run) × (probe_chunk input float key root modules cached worker display can_store
              missing chunk r
            ≡ Outcome.done r')
          × IsAnswered chunk r r'
    chunk_ends rows safe stores missing chunk r size =
        let batch = batch_of input float key root modules cached worker display can_store missing in
        run_probe_chunk-IsAnswered (λ pairs. worker (batch pairs)) display can_store
          (λ pairs. rows (batch pairs)) (λ pairs. safe (batch pairs)) stores (length chunk) chunk r
          size (omega arith)

    missing_end :
        HasRows worker
        → FailsSafely worker
        → ((entries : List ProbeCacheEntry) → can_store entries ≡ true)
        → 0 < input.settings.chunk_size
        → (r : Run) (missing : List PlannedProbe)
        → (r' : Run) × (probing (some (r, missing)) ≡ Outcome.done r') × AreAnswered missing r r'
    missing_end rows safe stores size r [] =
        (r, refl, record { answered = tt; kept = λ id a. a; few_batches = omega arith })
    missing_end rows safe stores size r (p ∷ ps) =
        let missing : List PlannedProbe = p ∷ ps in
        let n = input.settings.chunk_size in
        let (r', e, a) =
          run_chunks-AreAnswered
            (probe_chunk input float key root modules cached worker display can_store missing)
            (chunk_ends rows safe stores missing) (chunks n missing) r
            (chunks-nonempty n size missing) in
        (r', e, subst (λ ps. AreAnswered ps r r') (chunks-flat n size missing) a)

    -- With a budget and a chunk size that are not zero, a store that can be read and written and whose
    -- verdicts are on the pairs of their keys, and a worker that answers every pair of a batch or fails
    -- in a way the code recovers from, the verification comes to an end: every planned pair has
    -- evidence, so has every pair that the plan answered itself, and the worker is called at most twice
    -- for each planned pair.
    pub verify_candidate_probes-AreAnswered :
        input.enabled ≡ true
        → 0 < input.settings.budget
        → 0 < input.settings.chunk_size
        → ((k : String) → is_readable (cached k) ≡ true)
        → IsKeyed key cached
        → HasRows worker
        → FailsSafely worker
        → ((entries : List ProbeCacheEntry) → can_store entries ≡ true)
        → (r : Run) × (verified ≡ Outcome.done r) × AreAnswered plan.0.planned begun r
    verify_candidate_probes-AreAnswered e b c readable keyed rows safe stores =
        let (r, missing, resolved, w) =
          resolve-IsResolved cached readable plan.0.planned begun []
            (planned-IsHonest (initial_diagnostics input.enabled input.settings) keyed) in
        let (r', ends, a) = missing_end rows safe stores c r missing in
        (
          r',
          enabled_run e b c ∙ ap probing resolved ∙ ends,
          record {
            answered = (w.completes r' a.kept a.answered).0;
            kept = λ id k. a.kept id (w.kept id k);
            few_batches = omega (arith, a.few_batches, w.few_missing, w.same_batches);
          },
        )

    -- With a budget and a chunk size that are not zero, if the store answers every planned pair, the
    -- worker is not called, whatever it would do, and nothing is written.
    pub verify_candidate_probes-hits :
        input.enabled ≡ true
        → 0 < input.settings.budget
        → 0 < input.settings.chunk_size
        → All (λ p. is_hit (cached p.cache_key) ≡ true) plan.0.planned
        → (r : Run) × (verified ≡ Outcome.done r)
          × (r.diagnostics.worker_batches ≡ plan.1.worker_batches)
          × (r.stored ≡ [])
    verify_candidate_probes-hits e b c hits =
        let (r, resolved, batches, stored) = resolve-hits cached plan.0.planned begun hits in
        (r, enabled_run e b c ∙ ap probing resolved, batches, stored)
