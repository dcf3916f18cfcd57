-- ===== src/Search/Probe/Chunks/Recovery.antt =====
-- crates/search/src/semantic_verification.rs: recovery by halving answers every pair of a chunk.
use lean_dup.Base.{
  ℕ, suc, zero, ◌+◌, ◌*◌, ◌/◌, ◌≤◌, ◌<◌, String, Bool, true, List, [], ◌∷◌, map, any, All,
  All-append, All-imp, take, drop, length, ltb→lt, length-take, length-drop, take-append-drop, ltb,
  ◌==◌, ◌⊎◌, inl, inr, ◌≡◌, refl, sym, subst, ◌∙◌, arith, text_ord, Bool-cases, or_intro_left,
}
use lean_dup.Base.Maps
use lean_dup.Base.Sets.{same_iff}
use lean_dup.Search.Evidence.{ProbePair, ProbeResult}
use lean_dup.Search.Probe.{PlannedProbe}
use lean_dup.Search.Probe.Chunks.{
  WorkerError, ProbeCacheEntry, Run, Outcome, recoverable_probe_error, unavailable_probe_result,
  begin, absorb_one, absorb, entry_of, entries_of, store, recover, and_then_run, accept, isolate,
  answer, run_probe_chunk,
}
use lean_dup.Search.Probe.Chunks.Absorb.{
  Answered, IsInBatch, absorb-Extends, absorb-Answered, absorb_one-key, absorb_one-Extends,
  All-IsInBatch, batches-count_worker,
}

-- What a call that comes to an end has done for a chunk: every pair has evidence, no evidence is lost,
-- and the batches are fewer than twice the pairs.
pub record IsAnswered (chunk : List PlannedProbe) (r r' : Run) : Type 0 where
  pub answered : All (λ p. Answered r' p.pair.pair_id) chunk
  pub kept : (pair_id : String) → Answered r pair_id → Answered r' pair_id
  pub few_batches :
      suc r'.diagnostics.worker_batches ≤ r.diagnostics.worker_batches + 2 * length chunk

-- What the code relies on: a batch that succeeds has a row for each of its pairs.
abbrev pub IsComplete : (List ProbePair → List ProbeResult ⊎ WorkerError) → Type 0
IsComplete probe_batch =
    (batch : List ProbePair) (rows : List ProbeResult)
    → probe_batch batch ≡ inl rows
    → All (λ pair. any (λ row. row.pair_id == pair.pair_id) rows ≡ true) batch

-- Every failure of the worker is one that the code recovers from.
abbrev pub IsRecoverable : (List ProbePair → List ProbeResult ⊎ WorkerError) → Type 0
IsRecoverable probe_batch =
    (batch : List ProbePair) (error : WorkerError)
    → probe_batch batch ≡ inr error
    → recoverable_probe_error error ≡ true

Ends : List PlannedProbe → Run → Outcome → Type 0
Ends chunk r outcome = (r' : Run) × (outcome ≡ Outcome.done r') × IsAnswered chunk r r'

All-map {ℓ κ μ} :
    {A : Type ℓ} {B : Type κ} (f : A → B) (P : B → Type μ) (xs : List A)
    → All P (map f xs)
    → All (λ x. P (f x)) xs
All-map f P [] h = tt
All-map f P (x ∷ xs) h = (h.0, All-map f P xs h.1)

All-both {ℓ κ μ} :
    {A : Type ℓ} (P : A → Type κ) (Q : A → Type μ) (xs : List A)
    → All P xs
    → All Q xs
    → All (λ x. P x × Q x) xs
All-both P Q [] h k = tt
All-both P Q (x ∷ xs) h k = ((h.0, k.0), All-both P Q xs h.1 k.1)

begin-batches :
    (chunk : List PlannedProbe) (r : Run)
    → (begin chunk r).diagnostics.worker_batches ≡ suc r.diagnostics.worker_batches
unfolding begin
begin-batches chunk r = batches-count_worker chunk _

begin-evidence : (chunk : List PlannedProbe) (r : Run) → (begin chunk r).evidence ≡ r.evidence
unfolding begin
begin-evidence chunk r = refl

module _ (probe_batch : List ProbePair → List ProbeResult ⊎ WorkerError)
    (display : WorkerError → String) (can_store : List ProbeCacheEntry → Bool)
    (complete : IsComplete probe_batch) (recovers : IsRecoverable probe_batch)
    (stores : (entries : List ProbeCacheEntry) → can_store entries ≡ true) where
  abbrev pub run : ℕ → List PlannedProbe → Run → Outcome
  run = run_probe_chunk probe_batch display can_store

  accepted :
      (chunk : List PlannedProbe) (rows : List ProbeResult) (r : Run)
      → 1 ≤ length chunk
      → probe_batch (map (λ p. p.pair) chunk) ≡ inl rows
      → Ends chunk r (accept probe_batch display can_store chunk rows (begin chunk r))
  unfolding Ends
  accepted chunk rows r size e =
      let entries = entries_of chunk rows in
      let stored = store entries (begin chunk r) in
      let ext = absorb-Extends chunk rows stored in
      let rows_of =
        All-map (λ p. p.pair) (λ pair. any (λ row. row.pair_id == pair.pair_id) rows ≡ true) chunk
          (complete (map (λ p. p.pair) chunk) rows e) in
      (
        absorb chunk rows stored,
        rw (stores entries) refl,
        record {
          answered =
              All-imp (λ p h. absorb-Answered chunk rows stored p.pair.pair_id h.0 h.1) chunk
                (All-both (λ p. IsInBatch p.pair.pair_id chunk) _ chunk (All-IsInBatch chunk)
                  rows_of);
          kept = λ id h.
              ext.kept id
                (subst (λ m. Maps.contains_key id m ≡ true) (sym (begin-evidence chunk r)) h);
          few_batches = omega (arith, ext.same_batches, begin-batches chunk r);
        },
      )

  isolated :
      (p : PlannedProbe) (chunk : List PlannedProbe) (error : WorkerError) (r : Run)
      → length (p ∷ chunk) ≤ 1
      → Ends
          (p ∷ chunk)
          r
          (isolate probe_batch display can_store (p ∷ chunk) error (recover (begin (p ∷ chunk) r)))
  unfolding Ends unavailable_probe_result
  isolated p (q ∷ chunk) error r size = absurd (omega arith)
  isolated p [] error r size =
      let result = unavailable_probe_result p.pair (display error) in
      let started = begin (p ∷ []) r in
      let stored = store (entry_of p result ∷ []) (recover started) in
      let ext = absorb_one-Extends p result stored in
      let mine = absorb_one-key p result stored p.pair.pair_id in
      (
        absorb_one p result stored,
        rw (stores (entry_of p result ∷ [])) refl,
        record {
          answered =
              (mine ∙ or_intro_left _ _ ((same_iff p.pair.pair_id p.pair.pair_id).1 refl), tt);
          kept = λ id h.
              ext.kept id
                (subst (λ m. Maps.contains_key id m ≡ true) (sym (begin-evidence (p ∷ []) r)) h);
          few_batches = omega (arith, ext.same_batches, begin-batches (p ∷ []) r);
        },
      )

  halved :
      (fuel : ℕ) (chunk : List PlannedProbe) (r : Run)
      → 2 ≤ length chunk
      → ((part : List PlannedProbe) (q : Run)
          → 1 ≤ length part
          → length part < length chunk
          → Ends part q (run fuel part q))
      → Ends chunk r (
          and_then_run
            (run fuel (take (length chunk / 2) chunk) (recover (begin chunk r)))
            (run fuel (drop (length chunk / 2) chunk)))
  unfolding Ends
  halved fuel chunk r size smaller =
      let half = length chunk / 2 in
      let started = recover (begin chunk r) in
      let (r', e, a) =
        smaller (take half chunk) started (omega (arith, length-take half chunk))
          (omega (arith, length-take half chunk)) in
      let (r'', e', a') =
        smaller (drop half chunk) r' (omega (arith, length-drop half chunk))
          (omega (arith, length-drop half chunk)) in
      (
        r'',
        rw e e',
        record {
          answered = subst (All (λ p. Answered r'' p.pair.pair_id)) (take-append-drop half chunk) (
              All-append (λ p. Answered r'' p.pair.pair_id) (take half chunk) (drop half chunk)
                (All-imp (λ p h. a'.kept p.pair.pair_id h) (take half chunk) a.answered)
                a'.answered);
          kept = λ id h. a'.kept id (
              a.kept id
                (subst (λ m. Maps.contains_key id m ≡ true) (sym (begin-evidence chunk r)) h));
          few_batches = omega (
            arith,
            length-take half chunk,
            length-drop half chunk,
            a.few_batches,
            a'.few_batches,
            begin-batches chunk r,
          );
        },
      )

  split : ℕ → List PlannedProbe → Run → Outcome
  split fuel chunk r' =
      and_then_run (run fuel (take (length chunk / 2) chunk) r')
        (run fuel (drop (length chunk / 2) chunk))

  alone :
      (chunk : List PlannedProbe) (error : WorkerError) (r : Run)
      → 1 ≤ length chunk
      → length chunk ≤ 1
      → Ends chunk r (isolate probe_batch display can_store chunk error (recover (begin chunk r)))
  alone [] error r size small = absurd (omega arith)
  alone (p ∷ ps) error r size small = isolated p ps error r small

  ends :
      (fuel : ℕ) (chunk : List PlannedProbe) (r : Run)
      → 1 ≤ length chunk
      → ((part : List PlannedProbe) (q : Run)
          → 1 ≤ length part
          → length part < length chunk
          → Ends part q (run fuel part q))
      → (o : List ProbeResult ⊎ WorkerError) → probe_batch (map (λ p. p.pair) chunk) ≡ o
      → Ends chunk r
          (answer probe_batch display can_store chunk o (split fuel chunk) (begin chunk r))
  unfolding split run_probe_chunk
  ends fuel chunk r size smaller (inl rows) e = accepted chunk rows r size e
  ends fuel chunk r size smaller (inr error) e = elim (Bool-cases (ltb 1 (length chunk))) [
    | inl large ↦
        rw (recovers (map (λ p. p.pair) chunk) error e, large)
          (halved fuel chunk r (ltb→lt 1 (length chunk) large) smaller)
    | inr small ↦
        rw (recovers (map (λ p. p.pair) chunk) error e, small)
          (alone chunk error r size (ground arith))
  ]

  -- With a worker whose failures are recoverable and whose successful batches have a row for each pair,
  -- and a store that takes what it is given, a chunk that is not empty comes to an end with fuel for its
  -- length: every pair has evidence, what was known stays known, and the worker is called fewer times
  -- than twice the number of pairs.
  pub run_probe_chunk-IsAnswered :
      (fuel : ℕ) (chunk : List PlannedProbe) (r : Run)
      → 1 ≤ length chunk
      → length chunk ≤ fuel
      → (r' : Run) × (run fuel chunk r ≡ Outcome.done r') × IsAnswered chunk r r'
  unfolding Ends run_probe_chunk split
  run_probe_chunk-IsAnswered zero chunk r size enough = absurd (omega arith)
  run_probe_chunk-IsAnswered (suc fuel) chunk r size enough =
      ends fuel chunk r size
        (λ part q size' less. run_probe_chunk-IsAnswered fuel part q size' (omega arith))
        (probe_batch (map (λ p. p.pair) chunk)) refl
