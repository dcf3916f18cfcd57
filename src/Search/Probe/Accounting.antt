-- ===== src/Search/Probe/Accounting.antt =====
-- crates/search/src/semantic_verification.rs: where the candidates of a probe plan end up.
use lean_dup.Base.{ℕ, ◌+◌, length, ◌≡◌, text_ord}
use lean_dup.Base.Sets
use lean_dup.Search.Probe.Select.{Selection}

-- What the selecting loop adds up to over `n` prospects.
pub record IsTallied (s : Selection) (n : ℕ) (s' : Selection) : Type 0 where
  pub all_placed :
      s'.selected_count + s'.diagnostics.skipped_by_budget
      ≡ n + (s.selected_count + s.diagnostics.skipped_by_budget)
  pub all_used :
      length s'.planned + s'.diagnostics.unavailable_results + s.selected_count
      ≡ length s.planned + s.diagnostics.unavailable_results + s'.selected_count
  pub same_considered : s'.diagnostics.candidates_considered ≡ s.diagnostics.candidates_considered
  pub same_policy : s'.diagnostics.skipped_by_policy ≡ s.diagnostics.skipped_by_policy
  pub same_rejects : s'.diagnostics.cheap_summary_rejects ≡ s.diagnostics.cheap_summary_rejects
