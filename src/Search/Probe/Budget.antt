-- ===== src/Search/Probe/Budget.antt =====
-- crates/search/src/semantic_verification.rs: what `plan_probes` selects stays within the budget, the
-- cap of a declaration and the quotas.
use lean_dup.Base.{
  ℕ, ◌≤◌, ◌<◌, max, String, true, false, List, [], ◌∷◌, length, length-append, ◌≡◌, refl, inl, inr,
  arith, FloatOps, sort_by, Bool-cases, text_ord,
}
use lean_dup.Base.Maps
use lean_dup.Base.Maps.{get_or_default}
use lean_dup.Search.Declaration.{HydratedDeclaration}
use lean_dup.Search.Evidence.{ProbeObligation, ProbePair}
use lean_dup.Search.Ranking.Queue.{pairs_of}
use lean_dup.Search.Probe.{ProbeSettings, PlannedProbe, ProbeDecision, is_broad}
use lean_dup.Search.Probe.Diagnostics.{ProbeDiagnostics}
use lean_dup.Search.Probe.Bounds.{tally, Bounds, Bounds-charge, Bounds-plan}
use lean_dup.Search.Probe.Quotas.{
  count_at, match_class_quota, declaration_kind_quota, quota_allows, record_quota_use,
}
use lean_dup.Search.Probe.Classify.{SemanticVerificationInput, Prospect, classify}
use lean_dup.Search.Probe.Select.{
  Selection, charge, admit, is_skipped, select_one, select, probe_order, unselected, selection,
  plan_probes, worker_probe,
}

abbrev pub anchor_of : PlannedProbe → String
anchor_of p = p.pair.left_declaration_id

abbrev pub class_of : PlannedProbe → String
class_of p = p.facts.match_class

abbrev pub kind_of : PlannedProbe → String
kind_of p = p.facts.declaration_kind

abbrev pub source_of : PlannedProbe → String
source_of p = p.facts.source_id

-- What holds of the selection after every round.
pub record IsWithin (settings : ProbeSettings) (s : Selection) : Type 0 where
  pub budget_kept : s.selected_count ≤ settings.budget
  pub planned_selected : length s.planned ≤ s.selected_count
  pub cap_kept : Bounds anchor_of (λ z. settings.per_declaration_cap) s.per_declaration s.planned

-- What holds besides under the actionable policy.
pub record IsRationed (settings : ProbeSettings) (s : Selection) : Type 0 where
  pub class_kept :
      Bounds class_of (match_class_quota (max settings.budget 1)) s.quotas.by_match_class s.planned
  pub kind_kept :
      Bounds kind_of
        (declaration_kind_quota (max settings.budget 1))
        s.quotas.by_declaration_kind
        s.planned

module _ {S : Type 0} (input : SemanticVerificationInput S)
    (key : ProbePair → HydratedDeclaration → HydratedDeclaration → ProbeObligation → String) where
  admit-IsWithin :
      (decision : ProbeDecision) (p : Prospect S) (s : Selection)
      → s.selected_count < input.settings.budget
      → count_at p.anchor.declaration_id s.per_declaration < input.settings.per_declaration_cap
      → IsWithin input.settings s
      → IsWithin input.settings (admit input key decision p (charge input key p s))
  admit-IsWithin (ProbeDecision.worker_decision obligation) p s h room w = record {
    budget_kept = omega arith;
    planned_selected = omega (arith, length-append s.planned, w.planned_selected);
    cap_kept =
        Bounds-plan anchor_of _ p.anchor.declaration_id s.per_declaration s.planned w.cap_kept room
          (worker_probe input key p obligation) refl;
  }
  admit-IsWithin (ProbeDecision.unavailable_decision reason) p s h room w = record {
    budget_kept = omega arith;
    planned_selected = omega (arith, w.planned_selected);
    cap_kept =
        Bounds-charge anchor_of _ p.anchor.declaration_id s.per_declaration s.planned w.cap_kept
          room;
  }

  not_skipped :
      (p : Prospect S) (s : Selection)
      → is_skipped input key p s ≡ false
      → (s.selected_count < input.settings.budget)
        × (count_at p.anchor.declaration_id s.per_declaration < input.settings.per_declaration_cap)
        × (quota_allows input.settings p.facts s.quotas ≡ true)
  unfolding is_skipped
  not_skipped p s h = ground arith

  select-IsWithin :
      (ps : List (Prospect S)) (s : Selection)
      → IsWithin input.settings s
      → IsWithin input.settings (select input key ps s)
  unfolding select select_one
  select-IsWithin [] s w = w
  select-IsWithin (p ∷ ps) s w = elim (Bool-cases (is_skipped input key p s)) [
    | inl e ↦ rw e (
        select-IsWithin ps _ (record {
          budget_kept = w.budget_kept;
          planned_selected = w.planned_selected;
          cap_kept = w.cap_kept;
        }))
    | inr e ↦
        let (h, room, q) = not_skipped p s e in
        rw e (select-IsWithin ps _ (admit-IsWithin p.decision p s h room w))
  ]

  allowed :
      (p : Prospect S) (s : Selection)
      → is_broad input.settings.policy ≡ false
      → quota_allows input.settings p.facts s.quotas ≡ true
      → (count_at p.facts.match_class s.quotas.by_match_class
          < match_class_quota (max input.settings.budget 1) p.facts.match_class)
        × (count_at p.facts.declaration_kind s.quotas.by_declaration_kind
            < declaration_kind_quota (max input.settings.budget 1) p.facts.declaration_kind)
  unfolding quota_allows
  allowed p s b q = ground arith

  admit-IsRationed :
      (decision : ProbeDecision) (p : Prospect S) (s : Selection)
      → is_broad input.settings.policy ≡ false
      → quota_allows input.settings p.facts s.quotas ≡ true
      → IsRationed input.settings s
      → IsRationed input.settings (admit input key decision p (charge input key p s))
  unfolding record_quota_use
  admit-IsRationed (ProbeDecision.worker_decision obligation) p s b q w =
      let (room, kind_room) = allowed p s b q in
      let probe = worker_probe input key p obligation in
      record {
        class_kept =
            Bounds-plan class_of _ p.facts.match_class s.quotas.by_match_class s.planned
              w.class_kept room probe refl;
        kind_kept =
            Bounds-plan kind_of _ p.facts.declaration_kind s.quotas.by_declaration_kind s.planned
              w.kind_kept kind_room probe refl;
      }
  admit-IsRationed (ProbeDecision.unavailable_decision reason) p s b q w =
      let (room, kind_room) = allowed p s b q in
      record {
        class_kept =
            Bounds-charge class_of _ p.facts.match_class s.quotas.by_match_class s.planned
              w.class_kept room;
        kind_kept =
            Bounds-charge kind_of _ p.facts.declaration_kind s.quotas.by_declaration_kind s.planned
              w.kind_kept kind_room;
      }

  select-IsRationed :
      (ps : List (Prospect S)) (s : Selection)
      → is_broad input.settings.policy ≡ false
      → IsRationed input.settings s
      → IsRationed input.settings (select input key ps s)
  unfolding select select_one
  select-IsRationed [] s b w = w
  select-IsRationed (p ∷ ps) s b w = elim (Bool-cases (is_skipped input key p s)) [
    | inl e ↦
        rw e
          (select-IsRationed ps _ b (record { class_kept = w.class_kept; kind_kept = w.kind_kept }))
    | inr e ↦
        let (h, room, q) = not_skipped p s e in
        rw e (select-IsRationed ps _ b (admit-IsRationed p.decision p s b q w))
  ]

  no-Bounds : (f : PlannedProbe → String) (quota : String → ℕ) → Bounds f quota [] []
  unfolding count_at Maps.get
  no-Bounds f quota = record { tracks = λ z. omega arith; below = λ z. omega arith }

  -- A plan selects no more pairs than the budget and plans no more than it selects, and no declaration
  -- is the anchor of more planned probes than the cap allows.
  pub plan_probes-IsWithin :
      (float : FloatOps S) (d : ProbeDiagnostics)
      → let (plan, d') = plan_probes input key float d in
        (d'.planned_pairs ≤ input.settings.budget)
        × (length plan.planned ≤ d'.planned_pairs)
        × ((anchor : String)
            → tally anchor_of anchor plan.planned ≤ input.settings.per_declaration_cap)
  unfolding plan_probes selection
  plan_probes-IsWithin float d =
      let (prospects, d') = classify input (pairs_of input.candidate_sets) d in
      let start : IsWithin input.settings (unselected input key d') = record {
        budget_kept = omega arith;
        planned_selected = omega arith;
        cap_kept = no-Bounds anchor_of _;
      } in
      let w =
        select-IsWithin (sort_by (probe_order input key float) prospects) (unselected input key d')
          start in
      (
        w.budget_kept,
        w.planned_selected,
        λ z. omega (arith, w.cap_kept.tracks z, w.cap_kept.below z),
      )

  -- Under the actionable policy no match class and no pair of declaration kinds has more planned probes
  -- than its quota of the budget.
  pub plan_probes-IsRationed :
      (float : FloatOps S) (d : ProbeDiagnostics)
      → is_broad input.settings.policy ≡ false
      → let (plan, d') = plan_probes input key float d in
        ((z : String)
          → tally class_of z plan.planned ≤ match_class_quota (max input.settings.budget 1) z)
        × ((z : String)
            → tally kind_of z plan.planned ≤ declaration_kind_quota (max input.settings.budget 1) z)
  unfolding plan_probes selection
  plan_probes-IsRationed float d b =
      let (prospects, d') = classify input (pairs_of input.candidate_sets) d in
      let start : IsRationed input.settings (unselected input key d') = record {
        class_kept = no-Bounds class_of _;
        kind_kept = no-Bounds kind_of _;
      } in
      let w =
        select-IsRationed (sort_by (probe_order input key float) prospects)
          (unselected input key d') b start in
      (
        λ z. omega (arith, w.class_kept.tracks z, w.class_kept.below z),
        λ z. omega (arith, w.kind_kept.tracks z, w.kind_kept.below z),
      )
