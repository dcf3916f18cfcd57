-- ===== src/Search/Retrieval/Run.antt =====
-- crates/search/src/retrieval.rs: `retrieve_candidates_inner` and the calls of the opened indexes.
pub mod Own
pub mod Hydrates
pub mod Needs
pub mod Lookups
pub mod Total
use Prim.Native.String.{◌++◌ as append}
use lean_dup.Base.{
  ℕ, ◌+◌, String, Bool, true, false, ◌&&◌, ◌||◌, not, Option, none, some, List, [], ◌∷◌, ◌++◌, map,
  filter, length, sum, ltb, leb, is_empty, if◌then◌else◌, enumerate_from, get_elem?, Ord, nat_ord,
  text_ord, pair_ord, Attempt, done, ask, expect, traverse, ◌>>=◌,
}
use lean_dup.Base.Maps
use lean_dup.Base.Maps.{get_or_default}
use lean_dup.Base.Sets
use lean_dup.Search.Declaration.{HydratedDeclaration, RetrievedCandidate, CandidateSet}
use lean_dup.Index.Opened.{SemanticFeatureKey, OpenedIndex, OpenedIndexFacts, feature_key_ord}
use lean_dup.Search.Retrieval.Keys.{PlannedKey, planned_keys, sorted_plans}
use lean_dup.Search.Retrieval.State.{
  ScoreOps, CandidateId, SelectedCandidate, RetrievalDiagnostics, RetrievalOutput,
  default_diagnostics, id_ord,
}
use lean_dup.Search.Retrieval.State.CandidateId.{workspace, external}
use lean_dup.Search.Retrieval.Accumulate.{
  Postings, ExternalPostings, Found, local_postings, local_counts, unique_keys,
  posting_limit_for_key, add_local_matches, add_external_matches,
}
use lean_dup.Search.Retrieval.Select.{select_top, values}

abbrev pub ExternalCounts : Type 0
ExternalCounts = List ((ℕ × SemanticFeatureKey) × ℕ)

abbrev pub insert_all {ℓ} :
    {V : Type ℓ}
    → ℕ
    → List (SemanticFeatureKey × V)
    → List ((ℕ × SemanticFeatureKey) × V)
    → List ((ℕ × SemanticFeatureKey) × V)
insert_all index [] m = m
insert_all index ((key, v) ∷ rest) m = insert_all index rest (Maps.insert (index, key) v m)

abbrev pub append_all :
    ℕ → List (SemanticFeatureKey × List String) → ExternalPostings → ExternalPostings
append_all index [] m = m
append_all index ((key, handles) ∷ rest) m =
    append_all index rest (Maps.update (index, key) [] (λ posted. posted ++ handles) m)

unfoldable pub pair_id : HydratedDeclaration → HydratedDeclaration → String
pair_id anchor candidate = append anchor.declaration_id (append "::" candidate.declaration_id)

-- `entry(index).or_default().push(handle)` for an external candidate.
abbrev pub need_one : CandidateId → List (ℕ × List String) → List (ℕ × List String)
need_one (workspace i) needed = needed
need_one (external index handle) needed =
    Maps.update index [] (λ handles. handles ++ (handle ∷ [])) needed

abbrev pub need :
    {S : Type 0} → List (SelectedCandidate S) → List (ℕ × List String) → List (ℕ × List String)
need [] needed = needed
need (c ∷ cs) needed = need cs (need_one c.id needed)

abbrev pub Hydrated : Type 0
Hydrated = List ((ℕ × String) × HydratedDeclaration)

abbrev pub insert_hydrated : ℕ → List HydratedDeclaration → Hydrated → Hydrated
insert_hydrated index [] hydrated = hydrated
insert_hydrated index (d ∷ ds) hydrated =
    insert_hydrated index ds (Maps.insert (index, d.handle) d hydrated)

-- A declaration with the candidates that it keeps.
abbrev pub Selection : Type 0 → Type 0
Selection S = HydratedDeclaration × List (SelectedCandidate S)

abbrev pub is_selective :
    {S : Type 0} → List (List (PlannedKey S)) → ExternalCounts → ℕ → SemanticFeatureKey → Bool
is_selective workspace_plans counts index key =
    let count = get_or_default 0 (Maps.get (index, key) counts) in
    ltb 0 count && leb count (posting_limit_for_key workspace_plans key)

abbrev pub declaration_of :
    List HydratedDeclaration → Hydrated → CandidateId → Option HydratedDeclaration
declaration_of declarations hydrated (workspace i) = get_elem? declarations i
declaration_of declarations hydrated (external index handle) = Maps.get (index, handle) hydrated

abbrev pub set_if_found :
    {S : Type 0}
    → HydratedDeclaration
    → List (RetrievedCandidate S)
    → List (CandidateSet S)
    → List (CandidateSet S)
set_if_found anchor candidates sets =
    if is_empty candidates then sets else record { anchor = anchor; candidates = candidates } ∷ sets

abbrev pub need_all :
    {S : Type 0} → List (Selection S) → List (ℕ × List String) → List (ℕ × List String)
need_all [] needed = needed
need_all ((anchor, selected) ∷ rest) needed = need_all rest (need selected needed)

abbrev pub is_anchor : Option (List String) → HydratedDeclaration → Bool
is_anchor none anchor = true
is_anchor (some ids) anchor = Sets.contains anchor.declaration_id ids

module _ {E : Type 0} (indexes : List (OpenedIndex E)) where
  unfoldable pub hydrate_external :
      List (ℕ × List String)
      → Hydrated
      → RetrievalDiagnostics
      → Attempt E (Hydrated × RetrievalDiagnostics)
  hydrate_external [] hydrated d = done (hydrated, d)
  hydrate_external ((index, needed) ∷ rest) hydrated d = do
    let handles = Sets.extend needed []
    opened ← expect (get_elem? indexes index)
    declarations ← ask (opened.hydrate handles)
    hydrate_external rest (insert_hydrated index declarations hydrated)
        (record d { hydrated_external_count = d.hydrated_external_count + length handles })

module _ {E : Type 0} where
  unfoldable pub external_counts :
      List (ℕ × OpenedIndex E) → List SemanticFeatureKey → ExternalCounts → Attempt E ExternalCounts
  external_counts [] keys counts = done counts
  external_counts ((index, opened) ∷ rest) keys counts = do
    fanout ← ask (opened.feature_fanout keys)
    external_counts rest keys (insert_all index fanout counts)

module _ {E S : Type 0} where
  unfoldable pub external_postings :
      List (ℕ × OpenedIndex E)
      → List (List (PlannedKey S))
      → ExternalCounts
      → ExternalPostings
      → Attempt E ExternalPostings
  external_postings [] workspace_plans counts postings = done postings
  external_postings ((index, opened) ∷ rest) workspace_plans counts postings = do
    let selected = filter (is_selective workspace_plans counts index) (unique_keys workspace_plans)
    matches ← ask (opened.handles_matching_features selected)
    external_postings rest workspace_plans counts (append_all index matches postings)

  abbrev pub candidate_of :
      List HydratedDeclaration
      → Hydrated
      → HydratedDeclaration
      → SelectedCandidate S
      → Attempt E (RetrievedCandidate S)
  candidate_of declarations hydrated anchor candidate = do
    declaration ← expect (declaration_of declarations hydrated candidate.id)
    done (record {
      pair_id = pair_id anchor declaration;
      declaration = declaration;
      score = candidate.score;
      contributions = candidate.contributions;
      source_evidence = candidate.source_evidence;
    })

  unfoldable pub candidate_sets :
      List HydratedDeclaration → Hydrated → List (Selection S) → Attempt E (List (CandidateSet S))
  candidate_sets declarations hydrated [] = done []
  candidate_sets declarations hydrated ((anchor, selected) ∷ rest) = do
    candidates ← traverse (candidate_of declarations hydrated anchor) selected
    sets ← candidate_sets declarations hydrated rest
    done (set_if_found anchor candidates sets)

-- What the whole run looks candidates up in.
pub record Tables : Type 0 where
  pub postings : Postings
  pub counts : List (SemanticFeatureKey × ℕ)
  pub facts : List (ℕ × OpenedIndexFacts)
  pub external_counts : ExternalCounts
  pub external_postings : ExternalPostings

module _ {E S M : Type 0} ⦃o : Ord M⦄ (ops : ScoreOps S M) (indexes : List (OpenedIndex E))
    (declarations : List HydratedDeclaration) where
  abbrev pub match_plans : Tables → ℕ → String → List (PlannedKey S) → Found S → Found S
  match_plans t anchor_index anchor_id [] found = found
  match_plans t anchor_index anchor_id (plan ∷ plans) found =
      match_plans t anchor_index anchor_id plans (
        add_external_matches ops anchor_id plan t.external_counts t.external_postings t.facts (
          add_local_matches ops (length declarations) anchor_id anchor_index plan t.postings
            t.counts found))

  abbrev pub found_by : Tables → ℕ → HydratedDeclaration → RetrievalDiagnostics → Found S
  found_by t anchor_index anchor d =
      match_plans t anchor_index anchor.declaration_id
        (sorted_plans ops.float (planned_keys ops.float anchor))
        (record { accumulators = []; diagnostics = d })

  abbrev pub select_for :
      Tables
      → ℕ
      → HydratedDeclaration
      → RetrievalDiagnostics
      → Attempt E (List (SelectedCandidate S) × RetrievalDiagnostics)
  select_for t anchor_index anchor d =
      let found = found_by t anchor_index anchor d in
      select_top ops anchor.declaration_id (values found.accumulators) found.diagnostics

  -- The selection of an anchor that was asked for; of another, nothing.
  abbrev pub select_if :
      Bool
      → Tables
      → ℕ
      → HydratedDeclaration
      → RetrievalDiagnostics
      → Attempt E (List (Selection S) × RetrievalDiagnostics)
  select_if true t i anchor d =
      select_for t i anchor d >>= (λ one. done ((anchor, one.0) ∷ [], one.1))
  select_if false t i anchor d = done ([], d)

  unfoldable pub select_all :
      Tables
      → Option (List String)
      → List (ℕ × HydratedDeclaration)
      → RetrievalDiagnostics
      → Attempt E (List (Selection S) × RetrievalDiagnostics)
  select_all t ids [] d = done ([], d)
  select_all t ids ((i, anchor) ∷ rest) d = do
    one ← select_if (is_anchor ids anchor) t i anchor d
    others ← select_all t ids rest one.1
    done (one.0 ++ others.0, others.1)

  unfoldable pub tables : Attempt E Tables
  tables = do
    let plans = map (planned_keys ops.float) declarations
    let postings = local_postings plans
    facts ← traverse (λ opened. ask opened.facts) indexes
    counts ← external_counts (enumerate_from 0 indexes) (unique_keys plans) []
    external_found ← external_postings (enumerate_from 0 indexes) plans counts []
    done (record {
      postings = postings;
      counts = local_counts postings;
      facts = enumerate_from 0 facts;
      external_counts = counts;
      external_postings = external_found;
    })

  abbrev pub finish : List (Selection S) × RetrievalDiagnostics → Attempt E (RetrievalOutput S)
  finish (selections, d) = do
    hydration ← hydrate_external indexes (need_all selections []) [] d
    sets ← candidate_sets declarations hydration.0 selections
    done (record {
      candidate_sets = sets;
      diagnostics = record hydration.1 {
        candidate_count = sum (map (λ set. length set.candidates) sets);
      };
    })

  abbrev pub is_idle : Option (List String) → Bool
  is_idle none = is_empty declarations
  is_idle (some ids) = is_empty declarations || is_empty ids

  unfoldable pub retrieve_candidates_inner : Option (List String) → Attempt E (RetrievalOutput S)
  retrieve_candidates_inner ids =
      if is_idle ids
      then done (record { candidate_sets = []; diagnostics = default_diagnostics })
      else do
        t ← tables
        selections ← select_all t ids (enumerate_from 0 declarations) default_diagnostics
        finish selections

  -- `retrieve_candidates_for` adds measurements to it, and `retrieve_candidates` asks for every anchor.
  abbrev pub retrieve_candidates_for : Option (List String) → Attempt E (RetrievalOutput S)
  retrieve_candidates_for ids = retrieve_candidates_inner ids

  abbrev pub retrieve_candidates : Attempt E (RetrievalOutput S)
  retrieve_candidates = retrieve_candidates_for none
