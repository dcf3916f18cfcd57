-- ===== src/Search/Hints/Attach.antt =====
-- crates/search/src/replacement_hints.rs: attaching hints to a review that has them already.
use lean_dup.Base.{
  inl, inr, sym, true, false, List, [], ◌∷◌, map, ◌≡◌, refl, ap, ap₂, ◌∙◌, arith, Bool-cases,
}
use lean_dup.Search.Sources.{SourceFacts}
use lean_dup.Search.Review.{ReviewAction, RankedGroup, RankedReview}
use lean_dup.Search.Hints.Status.{ReplacementHintProfile}
use lean_dup.Search.Hints.Impact.{
  eligible, private_helper_wrapper_cleanup, caller_impact, wrapper_only,
}
use lean_dup.Search.Hints.Group.{hint_of, hint_for_group, with_hint, attach_replacement_hints}

module _ {S : Type 0} (facts : SourceFacts) (profile : ReplacementHintProfile) where
  abbrev act : ReviewAction → RankedGroup S → RankedGroup S
  act action group = record group { recommended_action = action }

  abbrev finish : ReviewAction → RankedGroup S → RankedGroup S
  finish action group = record (act action group) {
    replacement_hint = hint_for_group (act action group) facts profile;
  }

  finish_twice :
      (action : ReviewAction) (group : RankedGroup S)
      → finish action (finish action group) ≡ finish action group
  unfolding hint_for_group hint_of eligible caller_impact wrapper_only
  finish_twice action group = refl

  with_hint-cleaned :
      (group : RankedGroup S)
      → private_helper_wrapper_cleanup group facts ≡ true
      → with_hint facts profile group ≡ finish ReviewAction.inline_private_helper group
  unfolding with_hint
  with_hint-cleaned group h = rw h refl

  with_hint-kept :
      (group : RankedGroup S)
      → private_helper_wrapper_cleanup group facts ≡ false
      → with_hint facts profile group ≡ finish group.recommended_action group
  unfolding with_hint
  with_hint-kept group h = rw h refl

  cleaned_once :
      (group : RankedGroup S)
      → private_helper_wrapper_cleanup (finish ReviewAction.inline_private_helper group) facts
        ≡ false
  unfolding private_helper_wrapper_cleanup
  cleaned_once group = ground arith

  kept_again :
      (group : RankedGroup S)
      → private_helper_wrapper_cleanup (finish group.recommended_action group) facts
        ≡ private_helper_wrapper_cleanup group facts
  unfolding private_helper_wrapper_cleanup
  kept_again group = refl

  with_hint_twice :
      (group : RankedGroup S)
      → with_hint facts profile (with_hint facts profile group) ≡ with_hint facts profile group
  with_hint_twice group = elim (Bool-cases (private_helper_wrapper_cleanup group facts)) [
    | inl cleaned ↦
        let first = with_hint-cleaned group cleaned in
        ap (with_hint facts profile) first
        ∙ with_hint-kept (finish ReviewAction.inline_private_helper group) (cleaned_once group)
        ∙ finish_twice ReviewAction.inline_private_helper group
        ∙ sym first
    | inr kept ↦
        let first = with_hint-kept group kept in
        ap (with_hint facts profile) first
        ∙ with_hint-kept (finish group.recommended_action group) (kept_again group ∙ kept)
        ∙ finish_twice group.recommended_action group
        ∙ sym first
  ]

  map_twice :
      (groups : List (RankedGroup S))
      → map (with_hint facts profile) (map (with_hint facts profile) groups)
        ≡ map (with_hint facts profile) groups
  map_twice [] = refl
  map_twice (g ∷ gs) = ap₂ (◌∷◌) (with_hint_twice g) (map_twice gs)

  -- Attaching hints to a review that has them already changes nothing.
  pub attach_replacement_hints_twice :
      (review : RankedReview S)
      → attach_replacement_hints (attach_replacement_hints review facts profile) facts profile
        ≡ attach_replacement_hints review facts profile
  unfolding attach_replacement_hints
  attach_replacement_hints_twice review =
      ap (λ groups. record review { groups = groups }) (map_twice review.groups)
