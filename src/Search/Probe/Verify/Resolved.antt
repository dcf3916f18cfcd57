-- ===== src/Search/Probe/Verify/Resolved.antt =====
-- crates/search/src/semantic_verification.rs: the loop that asks the store for each planned probe.
use lean_dup.Base.{
  suc, Bool, ◌+◌, ◌≤◌, String, true, false, some, List, [], ◌∷◌, ◌++◌, length, length-append, All,
  ◌≡◌, refl, sym, ap, ◌∙◌, arith, text_ord, or_intro_left,
}
use lean_dup.Base.Sets.{same_iff}
use lean_dup.Search.Evidence.{ProbeResult, SearchSemanticObligationStatus, semantic_kind}
use lean_dup.Search.Probe.{PlannedProbe, ProbeStatus}
use lean_dup.Search.Probe.Diagnostics.{record_probe_status}
use lean_dup.Search.Probe.Counting.{increment_yield}
use lean_dup.Search.Probe.Chunks.{Run, absorb_one}
use lean_dup.Search.Probe.Chunks.Absorb.{Answered, absorb_one-key, absorb_one-Extends}
use lean_dup.Search.Probe.Verify.{Lookup, resolve, resolve_one}

abbrev pub is_readable : Lookup → Bool
is_readable (Lookup.hit row) = true
is_readable Lookup.miss = true
is_readable Lookup.unreadable = false

-- What the store holds under the key of a probe is a verdict on its pair.
abbrev pub IsHonest : (String → Lookup) → PlannedProbe → Type 0
IsHonest cached p =
    (row : ProbeResult) → cached p.cache_key ≡ Lookup.hit row → row.pair_id ≡ p.pair.pair_id

-- The probes of `ps` are answered or missing; a later run that answers the missing ones has answered
-- them all.
pub record IsResolved (ps : List PlannedProbe) (r : Run) (missing : List PlannedProbe) (r' : Run)
    (missing' : List PlannedProbe) : Type 0 where
  pub kept : (pair_id : String) → Answered r pair_id → Answered r' pair_id
  pub same_batches : r'.diagnostics.worker_batches ≡ r.diagnostics.worker_batches
  pub same_stored : r'.stored ≡ r.stored
  pub few_missing : length missing' ≤ length missing + length ps
  pub completes :
      (q : Run)
      → ((pair_id : String) → Answered r' pair_id → Answered q pair_id)
      → All (λ p. Answered q p.pair.pair_id) missing'
      → All (λ p. Answered q p.pair.pair_id) ps × All (λ p. Answered q p.pair.pair_id) missing

counted : PlannedProbe → Run → Run
counted p r = record r {
  diagnostics =
      increment_yield (semantic_kind p.obligation) SearchSemanticObligationStatus.status_cached (
        record_probe_status (record r.diagnostics { cached_hits = suc r.diagnostics.cached_hits })
          p.facts ProbeStatus.cached);
}

resolve_one-Answered :
    (p : PlannedProbe) (row : ProbeResult) (r : Run)
    → row.pair_id ≡ p.pair.pair_id
    → Answered (resolve_one p row r) p.pair.pair_id
unfolding resolve_one counted
resolve_one-Answered p row r e =
    absorb_one-key p row (counted p r) p.pair.pair_id
    ∙ or_intro_left _ _ ((same_iff p.pair.pair_id row.pair_id).1 (sym e))

resolve_one-kept :
    (p : PlannedProbe) (row : ProbeResult) (r : Run) (pair_id : String)
    → Answered r pair_id
    → Answered (resolve_one p row r) pair_id
unfolding resolve_one counted
resolve_one-kept p row r id h = (absorb_one-Extends p row (counted p r)).kept id h

resolve_one-batches :
    (p : PlannedProbe) (row : ProbeResult) (r : Run)
    → (resolve_one p row r).diagnostics.worker_batches ≡ r.diagnostics.worker_batches
unfolding resolve_one counted increment_yield record_probe_status
resolve_one-batches p row r = (absorb_one-Extends p row (counted p r)).same_batches

resolve_one-stored :
    (p : PlannedProbe) (row : ProbeResult) (r : Run) → (resolve_one p row r).stored ≡ r.stored
unfolding resolve_one absorb_one
resolve_one-stored p row r = refl

Resolves : (String → Lookup) → List PlannedProbe → Run → List PlannedProbe → Type 0
Resolves cached ps r missing =
    (r' : Run) × (missing' : List PlannedProbe) × (resolve cached ps r missing
      ≡ some (r', missing'))
    × IsResolved ps r missing r' missing'

All-snoc :
    (P : PlannedProbe → Type 0) (xs : List PlannedProbe) (x : PlannedProbe)
    → All P (xs ++ x ∷ [])
    → All P xs × P x
All-snoc P [] x h = (tt, h.0)
All-snoc P (y ∷ ys) x h = let (front, last) = All-snoc P ys x h.1 in ((h.0, front), last)

module _ (cached : String → Lookup) (readable : (k : String) → is_readable (cached k) ≡ true) where
  found :
      (p : PlannedProbe) (ps : List PlannedProbe) (r : Run) (missing : List PlannedProbe)
      → (row : ProbeResult) → row.pair_id ≡ p.pair.pair_id
      → cached p.cache_key ≡ Lookup.hit row
      → Resolves cached ps (resolve_one p row r) missing
      → Resolves cached (p ∷ ps) r missing
  unfolding Resolves resolve
  found p ps r missing row honest e (r', missing', e', w) = (
    r',
    missing',
    rw (e, resolve) e',
    record {
      kept = λ id h. w.kept id (resolve_one-kept p row r id h);
      same_batches = w.same_batches ∙ resolve_one-batches p row r;
      same_stored = w.same_stored ∙ resolve_one-stored p row r;
      few_missing = omega (arith, w.few_missing);
      completes = λ q k h.
          let (all, front) = w.completes q k h in
          (
            (k p.pair.pair_id (w.kept p.pair.pair_id (resolve_one-Answered p row r honest)), all),
            front,
          );
    },
  )

  missed :
      (p : PlannedProbe) (ps : List PlannedProbe) (r : Run) (missing : List PlannedProbe)
      → cached p.cache_key ≡ Lookup.miss
      → Resolves cached ps r (missing ++ p ∷ [])
      → Resolves cached (p ∷ ps) r missing
  unfolding Resolves resolve
  missed p ps r missing e (r', missing', e', w) = (
    r',
    missing',
    rw (e, resolve) e',
    record {
      kept = w.kept;
      same_batches = w.same_batches;
      same_stored = w.same_stored;
      few_missing = omega (arith, w.few_missing, length-append missing (p ∷ []));
      completes = λ q k h.
          let (all, front) = w.completes q k h in
          let (before, mine) = All-snoc (λ p. Answered q p.pair.pair_id) missing p front in
          ((mine, all), before);
    },
  )

  looked_up :
      (p : PlannedProbe) (ps : List PlannedProbe) (r : Run) (missing : List PlannedProbe)
      → (l : Lookup) → cached p.cache_key ≡ l
      → IsHonest cached p
      → ((row : ProbeResult) → Resolves cached ps (resolve_one p row r) missing)
      → Resolves cached ps r (missing ++ p ∷ [])
      → Resolves cached (p ∷ ps) r missing
  looked_up p ps r missing (Lookup.hit row) e honest f g =
      found p ps r missing row (honest row e) e (f row)
  looked_up p ps r missing Lookup.miss e honest f g = missed p ps r missing e g
  looked_up p ps r missing Lookup.unreadable e honest f g =
      absurd (cc (sym (readable p.cache_key) ∙ ap is_readable e))

  pub resolve-IsResolved :
      (ps : List PlannedProbe) (r : Run) (missing : List PlannedProbe)
      → All (IsHonest cached) ps
      → (r' : Run) × (missing' : List PlannedProbe) × (resolve cached ps r missing
          ≡ some (r', missing'))
        × IsResolved ps r missing r' missing'
  unfolding Resolves resolve
  resolve-IsResolved [] r missing h = (
    r,
    missing,
    refl,
    record {
      kept = λ id a. a;
      same_batches = refl;
      same_stored = refl;
      few_missing = omega arith;
      completes = λ q k a. (tt, a);
    },
  )
  resolve-IsResolved (p ∷ ps) r missing h =
      looked_up p ps r missing (cached p.cache_key) refl h.0
        (λ row. resolve-IsResolved ps (resolve_one p row r) missing h.1)
        (resolve-IsResolved ps r (missing ++ p ∷ []) h.1)

abbrev pub is_hit : Lookup → Bool
is_hit (Lookup.hit row) = true
is_hit Lookup.miss = false
is_hit Lookup.unreadable = false

Hits : (String → Lookup) → List PlannedProbe → Run → Type 0
Hits cached ps r =
    (r' : Run) × (resolve cached ps r [] ≡ some (r', []))
    × (r'.diagnostics.worker_batches ≡ r.diagnostics.worker_batches)
    × (r'.stored ≡ r.stored)

hit_next :
    (cached : String → Lookup) (p : PlannedProbe) (ps : List PlannedProbe) (r : Run)
    → (l : Lookup) → cached p.cache_key ≡ l
    → is_hit l ≡ true
    → ((row : ProbeResult) → Hits cached ps (resolve_one p row r))
    → Hits cached (p ∷ ps) r
unfolding Hits resolve
hit_next cached p ps r (Lookup.hit row) e h f =
    let (r', e', b, s) = f row in
    (r', rw (e, resolve) e', b ∙ resolve_one-batches p row r, s ∙ resolve_one-stored p row r)
hit_next cached p ps r Lookup.miss e h f = absurd cc
hit_next cached p ps r Lookup.unreadable e h f = absurd cc

-- A loop in which the store answers every probe misses none and calls for no batch.
pub resolve-hits :
    (cached : String → Lookup) (ps : List PlannedProbe) (r : Run)
    → All (λ p. is_hit (cached p.cache_key) ≡ true) ps
    → (r' : Run) × (resolve cached ps r [] ≡ some (r', []))
      × (r'.diagnostics.worker_batches ≡ r.diagnostics.worker_batches)
      × (r'.stored ≡ r.stored)
unfolding Hits resolve
resolve-hits cached [] r h = (r, refl, refl, refl)
resolve-hits cached (p ∷ ps) r h =
    hit_next cached p ps r (cached p.cache_key) refl h.0
      (λ row. resolve-hits cached ps (resolve_one p row r) h.1)
