-- ===== src/Search/Policy/Tests.antt =====
-- crates/search/src/review_policy.rs: runs on small declarations.
use lean_dup.Base.{◌&&◌, ◌||◌, not, [], ◌∷◌, ◌≡◌, refl, text_ord}
use lean_dup.Base.Sets
use lean_dup.Search.Declaration.{has_contribution}
use lean_dup.Search.Samples.{local_theorem, other_theorem, generated_theorem, same_statement}
use lean_dup.Search.Policy.{
  theorem_like, typeclass_like, kind_class, is_generated, non_public, low_signal, broad_heads,
  broad_head_only, proof_grade_or_source_clone, visibility_blockers, symbolic_observation_visible,
}
use lean_dup.Search.Policy.Blockers.{visibility_blockers_comm}
use lean_dup.Search.Policy.Visible.{is_plain_theorem, symbolic_observation_visible_lem}

blockers_of_generated :
    visibility_blockers same_statement local_theorem generated_theorem
    ≡ "generated-declaration" ∷ []
unfolding visibility_blockers theorem_like typeclass_like kind_class is_generated non_public
    low_signal broad_heads broad_head_only proof_grade_or_source_clone has_contribution Sets.insert
    Sets.extend Sets.contains
blockers_of_generated = refl

visibility_blockers_comm_example :
    visibility_blockers same_statement local_theorem generated_theorem
    ≡ visibility_blockers same_statement generated_theorem local_theorem
visibility_blockers_comm_example =
    visibility_blockers_comm same_statement local_theorem generated_theorem

symbolic_observation_visible_lem_example :
    symbolic_observation_visible same_statement local_theorem other_theorem ≡ (
      (is_plain_theorem local_theorem && is_plain_theorem other_theorem)
      && (not (is_generated local_theorem || is_generated other_theorem)
          && (not (non_public local_theorem || non_public other_theorem)
              && (not (low_signal local_theorem || low_signal other_theorem)
                  && (has_contribution same_statement "statement-fingerprint"
                      || has_contribution same_statement "safe-permutation-fingerprint")))))
symbolic_observation_visible_lem_example =
    symbolic_observation_visible_lem same_statement local_theorem other_theorem
