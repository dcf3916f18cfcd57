-- ===== src/Search/Review/Filter.antt =====
-- crates/search/src/ranking.rs: what `ReviewFilter::includes` lets through.
use lean_dup.Base.{true, ◌≡◌, ◌≤◌, arith}
use lean_dup.Search.Review.{ReviewFilter, RankedGroup, tier_rank, includes}

-- A filter is more permissive than another if it asks for no less.
pub record Permits (f f' : ReviewFilter) : Type 0 where
  pub generated_kept : f.include_generated ≡ true → f'.include_generated ≡ true
  pub private_kept : f.include_private ≡ true → f'.include_private ≡ true
  pub diagnostics_kept : f.include_diagnostics ≡ true → f'.include_diagnostics ≡ true
  pub priority_kept : tier_rank f.min_priority ≤ tier_rank f'.min_priority

-- A group that a filter includes is included by every more permissive filter.
pub includes_mono :
    {S : Type 0} (f f' : ReviewFilter) (group : RankedGroup S)
    → Permits f f'
    → includes f group ≡ true
    → includes f' group ≡ true
unfolding includes
includes_mono f f' group p h =
    ground (arith, p.generated_kept, p.private_kept, p.diagnostics_kept, p.priority_kept)
