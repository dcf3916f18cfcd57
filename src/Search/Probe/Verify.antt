-- ===== src/Search/Probe/Verify.antt =====
-- crates/search/src/semantic_verification.rs: `verify_candidate_probes`, which answers the planned
-- pairs from the store and hands the others to the worker in chunks, and `probe_modules_for`. The
-- store is a function from a key to what it holds; the source reads it before it writes to it.
pub mod Chunked
pub mod Resolved
pub mod Answers
mod Tests
use lean_dup.Base.{
  ℕ, zero, suc, String, Bool, true, false, ◌||◌, not, Option, none, some, List, [], ◌∷◌, ◌++◌, map,
  any, take, drop, length, is_empty, if◌then◌else◌, ◌==◌, ◌⊎◌, nat_eq, sort_by, by_key, FloatOps,
  text_ord, pair_ord,
}
use lean_dup.Base.Sets
use lean_dup.Index.Provenance.{ComparisonEvidencePolicy, ModuleDescriptor, probe_module}
use lean_dup.Search.Declaration.{HydratedDeclaration}
use lean_dup.Search.Evidence.{
  ProbePair, ProbeResult, ProbeObligation, SearchSemanticObligationStatus, semantic_kind,
}
use lean_dup.Search.Probe.{PlannedProbe, ProbeStatus}
use lean_dup.Search.Probe.Diagnostics.{ProbeDiagnostics, initial_diagnostics, record_probe_status}
use lean_dup.Search.Probe.Counting.{increment_yield}
use lean_dup.Search.Probe.Classify.{SemanticVerificationInput}
use lean_dup.Search.Probe.Select.{ProbePlan, plan_probes}
use lean_dup.Search.Probe.Chunks.{
  WorkerError, ProbeCacheEntry, Run, Outcome, absorb_one, and_then_run, run_probe_chunk,
}

pub record ProbeBatch : Type 0 where
  pub workspace_root : String
  pub modules : List ModuleDescriptor
  pub include_private : Bool
  pub include_generated : Bool
  pub pairs : List ProbePair
  pub max_pairs : Option ℕ
  pub max_heartbeats : Option ℕ

-- What `cached_probe` returns.
pub data Lookup : Type 0 where
  hit : ProbeResult → Lookup
  miss : Lookup
  unreadable : Lookup

-- The pairs of an origin and a module, left and right, of the planned probes.
abbrev pub places : List PlannedProbe → List (String × String)
places [] = []
places (p ∷ ps) = (p.left_origin, p.left_module) ∷ (p.right_origin, p.right_module) ∷ places ps

abbrev pub push? : Option ModuleDescriptor → List ModuleDescriptor → List ModuleDescriptor
push? none modules = modules
push? (some descriptor) modules = modules ++ descriptor ∷ []

abbrev pub descriptor_of :
    List String → ComparisonEvidencePolicy → String × String → Option ModuleDescriptor
descriptor_of workspace_modules policy place =
    if place.0 == "workspace"
    then if any (λ m. m == place.1) workspace_modules
      then some (record { module_name = place.1; origin = "workspace"; source_root = none })
      else none
    else probe_module policy place.0 place.1

unfoldable pub collect_modules :
    List String
    → ComparisonEvidencePolicy
    → List (String × String)
    → List (String × String)
    → List ModuleDescriptor
    → List ModuleDescriptor
collect_modules ws policy [] seen modules = modules
collect_modules ws policy (place ∷ rest) seen modules =
    collect_modules ws policy rest (Sets.insert place seen)
      (if Sets.contains place seen then modules else push? (descriptor_of ws policy place) modules)

unfoldable pub probe_modules_for :
    List String → ComparisonEvidencePolicy → List PlannedProbe → List ModuleDescriptor
probe_modules_for workspace_modules policy chunk =
    sort_by (by_key {K = String × String} (λ m. (m.origin, m.module_name)))
      (collect_modules workspace_modules policy (places chunk) [] [])

-- `slice::chunks`, with fuel for the length.
unfoldable pub chunks_from {ℓ} : {A : Type ℓ} → ℕ → ℕ → List A → List (List A)
chunks_from zero n xs = []
chunks_from (suc fuel) n xs =
    let rest = chunks_from fuel n (drop n xs) in if is_empty xs then [] else take n xs ∷ rest

unfoldable pub chunks {ℓ} : {A : Type ℓ} → ℕ → List A → List (List A)
chunks n xs = chunks_from (length xs) n xs

-- A probe that the store answers.
unfoldable pub resolve_one : PlannedProbe → ProbeResult → Run → Run
resolve_one planned row r =
    let hits = record r.diagnostics { cached_hits = suc r.diagnostics.cached_hits } in
    let counted =
      increment_yield (semantic_kind planned.obligation)
        SearchSemanticObligationStatus.status_cached
        (record_probe_status hits planned.facts ProbeStatus.cached) in
    absorb_one planned row (record r { diagnostics = counted })

-- The loop over the plan; `missing` are the probes that the store does not answer. `none` is an error
-- of the store.
unfoldable pub resolve :
    (String → Lookup)
    → List PlannedProbe
    → Run
    → List PlannedProbe
    → Option (Run × List PlannedProbe)
resolve cached [] r missing = some (r, missing)
resolve cached (p ∷ ps) r missing = elim (cached p.cache_key) [
  | hit row ↦ resolve cached ps (resolve_one p row r) missing
  | miss ↦ resolve cached ps r (missing ++ p ∷ [])
  | unreadable ↦ none
]

unfoldable pub run_chunks :
    (List PlannedProbe → Run → Outcome) → List (List PlannedProbe) → Run → Outcome
run_chunks run [] r = Outcome.done r
run_chunks run (chunk ∷ rest) r = and_then_run (run chunk r) (run_chunks run rest)

-- `worker` is the client of the worker, `display` the text of its errors, and `can_store` says
-- whether the probe store takes the entries.
module _ {S : Type 0} (input : SemanticVerificationInput S) (float : FloatOps S)
    (key : ProbePair → HydratedDeclaration → HydratedDeclaration → ProbeObligation → String)
    (workspace_root : String) (workspace_modules : List String) (cached : String → Lookup)
    (worker : ProbeBatch → List ProbeResult ⊎ WorkerError) (display : WorkerError → String)
    (can_store : List ProbeCacheEntry → Bool) where
  abbrev pub batch_of : List PlannedProbe → List ProbePair → ProbeBatch
  batch_of missing pairs = record {
    workspace_root = workspace_root;
    modules = probe_modules_for workspace_modules input.comparison_policy missing;
    include_private = input.include_private || any (λ p. p.include_private) missing;
    include_generated = input.include_generated || any (λ p. p.include_generated) missing;
    pairs = pairs;
    max_pairs = some (length pairs);
    max_heartbeats = input.settings.max_heartbeats;
  }

  abbrev pub probe_chunk : List PlannedProbe → List PlannedProbe → Run → Outcome
  probe_chunk missing chunk =
      run_probe_chunk (λ pairs. worker (batch_of missing pairs)) display can_store (length chunk)
        chunk

  abbrev pub probe_missing : Option (Run × List PlannedProbe) → Outcome
  probe_missing none = Outcome.store_failed
  probe_missing (some (r, missing)) =
      if is_empty missing
      then Outcome.done r
      else run_chunks (probe_chunk missing) (chunks input.settings.chunk_size missing) r

  abbrev pub start : ProbePlan × ProbeDiagnostics → Run
  start p = record { evidence = p.0.preflight_evidence; diagnostics = p.1; stored = [] }

  abbrev pub planned : ProbePlan × ProbeDiagnostics
  planned = plan_probes input key float (initial_diagnostics input.enabled input.settings)

  unfoldable pub verify_candidate_probes : Outcome
  verify_candidate_probes =
      if not input.enabled || (nat_eq input.settings.budget 0 || nat_eq input.settings.chunk_size 0)
      then Outcome.done (record {
        evidence = [];
        diagnostics = initial_diagnostics input.enabled input.settings;
        stored = [];
      })
      else probe_missing (resolve cached planned.0.planned (start planned) [])
