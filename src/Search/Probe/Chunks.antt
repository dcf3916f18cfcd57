-- ===== src/Search/Probe/Chunks.antt =====
-- crates/search/src/semantic_verification.rs: `run_probe_chunk`, which halves a batch that fails. The
-- worker is a function from a batch to its rows or to an error, `display` is the text of an error,
-- and `can_store` says whether the probe store takes the entries; progress reports are left out.
pub mod Absorb
pub mod Recovery
mod Tests
use Prim.Native.String.{◌++◌ as append}
use lean_dup.Base.{
  ℕ, suc, zero, ◌+◌, ◌/◌, String, Bool, true, false, ◌&&◌, ◌||◌, not, Option, none, some, List, [],
  ◌∷◌, ◌++◌, map, any, all, take, drop, length, filter_map, ltb, if◌then◌else◌, ◌==◌, ◌⊎◌, inl, inr,
  contains_text, text_ord,
}
use lean_dup.Base.Maps
use mathlib.Core.Option
use lean_dup.Search.Evidence.{
  ProbePair, ProbeResult, SemanticEvidence, semantic_evidence, semantic_kind,
}
use lean_dup.Search.Probe.{PlannedProbe, ProbeStatus, UnavailableReason, reason_label}
use lean_dup.Search.Probe.Diagnostics.{ProbeDiagnostics, record_probe_status}
use lean_dup.Search.Probe.Counting.{increment_worker_pairs, record_evidence_diagnostic}

pub record WorkerDiagnostic : Type 0 where
  pub code : String
  pub message : String
  pub fatal : Bool

pub data WorkerError : Type 0 where
  protocol : String → WorkerError
  worker_diagnostic : List WorkerDiagnostic → WorkerError
  timed_out_after : ℕ → WorkerError
  cancelled : WorkerError
  non_zero_exit : String → WorkerError
  eof_before_complete : List WorkerDiagnostic → WorkerError
  invalid_json_line : ℕ → WorkerError
  io : String → WorkerError
  build_failed : String → WorkerError
  not_provisioned : String → WorkerError

unfoldable pub recoverable_diagnostics : List WorkerDiagnostic → Bool
recoverable_diagnostics diagnostics =
    any
      (λ d.
        contains_text d.code "internal"
        || contains_text d.message "declaration processing failed"
        || contains_text d.message "heartbeat"
        || contains_text d.message "timeout"
        || contains_text d.message "maximum number of heartbeats")
      diagnostics
    && all (λ d. not (contains_text d.code "import")) diagnostics

unfoldable pub recoverable_probe_error : WorkerError → Bool
recoverable_probe_error (worker_diagnostic diagnostics) = recoverable_diagnostics diagnostics
recoverable_probe_error (eof_before_complete diagnostics) = recoverable_diagnostics diagnostics
recoverable_probe_error (timed_out_after t) = true
recoverable_probe_error (non_zero_exit status) = true
recoverable_probe_error (protocol m) = false
recoverable_probe_error cancelled = false
recoverable_probe_error (invalid_json_line line) = false
recoverable_probe_error (io m) = false
recoverable_probe_error (build_failed m) = false
recoverable_probe_error (not_provisioned m) = false

unfoldable pub worker_error_reason : String → UnavailableReason
worker_error_reason text =
    if contains_text text "heartbeat"
      || contains_text text "timeout"
      || contains_text text "maximum number of heartbeats"
    then UnavailableReason.reason_timeout
    else if contains_text text "not available" || contains_text text "missing"
    then UnavailableReason.reason_missing_declaration
    else UnavailableReason.reason_internal_error

unfoldable pub unavailable_probe_result : ProbePair → String → ProbeResult
unavailable_probe_result pair error = record {
  pair_id = pair.pair_id;
  left_declaration_id = pair.left_declaration_id;
  right_declaration_id = pair.right_declaration_id;
  status = "unavailable";
  same_statement = false;
  same_up_to_safe_reordering = false;
  connective_equivalent = false;
  specializes_left_to_right = false;
  specializes_right_to_left = false;
  mutual_implication_shape = false;
  same_reducible_definition = false;
  message = some (
      append (reason_label (worker_error_reason error))
        (append ": probe isolated after worker failure: " error));
}

pub record ProbeCacheEntry : Type 0 where
  pub cache_key : String
  pub pair : ProbePair
  pub result : ProbeResult

-- What the calls of `run_probe_chunk` change: the two maps that are passed on, and the entries that
-- the store was given.
pub record Run : Type 0 where
  pub evidence : List (String × SemanticEvidence)
  pub diagnostics : ProbeDiagnostics
  pub stored : List ProbeCacheEntry

-- A panic is the index `chunk[0]` on an empty chunk.
pub data Outcome : Type 0 where
  done : Run → Outcome
  worker_failed : WorkerError → Outcome
  store_failed : Outcome
  panicked : Outcome
  out_of_fuel : Outcome

-- `by_pair`: the last planned probe of a pair stays.
unfoldable pub planned_for : String → List PlannedProbe → Option PlannedProbe
planned_for pair_id [] = none
planned_for pair_id (p ∷ ps) = elim (planned_for pair_id ps) [
  | some later ↦ some later
  | none ↦ if p.pair.pair_id == pair_id then some p else none
]

unfoldable pub count_worker : List PlannedProbe → ProbeDiagnostics → ProbeDiagnostics
count_worker [] d = d
count_worker (p ∷ ps) d = count_worker ps (
    increment_worker_pairs (semantic_kind p.obligation) 1
      (record_probe_status d p.facts ProbeStatus.worker))

unfoldable pub begin : List PlannedProbe → Run → Run
begin chunk r = record r {
  diagnostics = count_worker chunk (record r.diagnostics {
    worker_batches = suc r.diagnostics.worker_batches;
    worker_pairs = r.diagnostics.worker_pairs + length chunk;
  });
}

-- Evidence of one row: the body of the loop over the rows.
unfoldable pub absorb_one : PlannedProbe → ProbeResult → Run → Run
absorb_one planned result r =
    let semantic = semantic_evidence planned.obligation result in
    record r {
      evidence = Maps.insert semantic.pair_id semantic r.evidence;
      diagnostics = record_evidence_diagnostic semantic planned r.diagnostics;
    }

abbrev pub absorb_if : Option PlannedProbe → ProbeResult → Run → Run
absorb_if none result r = r
absorb_if (some planned) result r = absorb_one planned result r

unfoldable pub absorb : List PlannedProbe → List ProbeResult → Run → Run
absorb chunk [] r = r
absorb chunk (result ∷ rows) r =
    absorb chunk rows (absorb_if (planned_for result.pair_id chunk) result r)

abbrev pub entry_of : PlannedProbe → ProbeResult → ProbeCacheEntry
entry_of planned result = record {
  cache_key = planned.cache_key;
  pair = planned.pair;
  result = result;
}

unfoldable pub entries_of : List PlannedProbe → List ProbeResult → List ProbeCacheEntry
entries_of chunk rows =
    filter_map (λ row. Option.map (λ planned. entry_of planned row) (planned_for row.pair_id chunk))
      rows

abbrev pub store : List ProbeCacheEntry → Run → Run
store entries r = record r { stored = r.stored ++ entries }

abbrev pub recover : Run → Run
recover r = record r {
  diagnostics = record r.diagnostics { recovered_failures = suc r.diagnostics.recovered_failures };
}

abbrev pub and_then_run : Outcome → (Run → Outcome) → Outcome
and_then_run (done r) f = f r
and_then_run (worker_failed e) f = worker_failed e
and_then_run store_failed f = store_failed
and_then_run panicked f = panicked
and_then_run out_of_fuel f = out_of_fuel

module _ (probe_batch : List ProbePair → List ProbeResult ⊎ WorkerError)
    (display : WorkerError → String) (can_store : List ProbeCacheEntry → Bool) where
  abbrev pub accept : List PlannedProbe → List ProbeResult → Run → Outcome
  accept chunk rows r =
      let entries = entries_of chunk rows in
      if can_store entries then done (absorb chunk rows (store entries r)) else store_failed

  -- A chunk of one that failed.
  abbrev pub isolate : List PlannedProbe → WorkerError → Run → Outcome
  isolate [] error r = panicked
  isolate (planned ∷ chunk) error r =
      let result = unavailable_probe_result planned.pair (display error) in
      let entries = entry_of planned result ∷ [] in
      if can_store entries then done (absorb_one planned result (store entries r)) else store_failed

  abbrev pub answer :
      List PlannedProbe → List ProbeResult ⊎ WorkerError → (Run → Outcome) → Run → Outcome
  answer chunk (inl rows) split r = accept chunk rows r
  answer chunk (inr error) split r =
      if recoverable_probe_error error && ltb 1 (length chunk)
      then split (recover r)
      else if recoverable_probe_error error
      then isolate chunk error (recover r)
      else worker_failed error

  unfoldable pub run_probe_chunk : ℕ → List PlannedProbe → Run → Outcome
  run_probe_chunk zero chunk r = out_of_fuel
  run_probe_chunk (suc fuel) chunk r =
      let midpoint = length chunk / 2 in
      answer chunk (probe_batch (map (λ p. p.pair) chunk))
        (λ r'.
          and_then_run (run_probe_chunk fuel (take midpoint chunk) r')
            (run_probe_chunk fuel (drop midpoint chunk)))
        (begin chunk r)
