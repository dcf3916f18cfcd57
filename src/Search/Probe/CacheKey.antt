-- ===== src/Search/Probe/CacheKey.antt =====
-- crates/search/src/semantic_verification.rs: `probe_cache_key`. What `serde_json::to_vec` writes for
-- the two documents is a parameter; SHA-256 is that of Index/Closure.
pub mod Scope
mod Tests
use lean_dup.Base.{ℕ, String, Option, none, some, List}
use mathlib.Core.Option
use lean_dup.Index.Closure.{Files, Resolver, closure_digest, and_then?}
use lean_dup.Search.Declaration.{HydratedDeclaration, Fingerprints}
use lean_dup.Search.Evidence.{ProbePair, ProbeObligation}
use lean_dup.Search.Probe.{ProbePolicy, obligation_label}
use lean_dup.Search.Probe.Diagnostics.{probe_policy_label}

pub record DeclarationContent : Type 0 where
  pub kind : String
  pub visibility : String
  pub modifiers : List String
  pub statement_text : String
  pub definition_body_summary : Option String

pub record DeclarationCacheFacts : Type 0 where
  pub declaration_id : String
  pub feature_version : String
  pub fingerprints : Fingerprints
  pub binder_count : ℕ
  pub kind : String
  pub content_digest : String
  pub closure_digest : String

pub record CacheKeyPayload : Type 0 where
  pub cache_version : String
  pub policy_version : String
  pub policy : String
  pub obligation : String
  pub pair : ProbePair
  pub left : DeclarationCacheFacts
  pub right : DeclarationCacheFacts

pub record Encoders : Type 0 where
  pub encode_content : DeclarationContent → List ℕ
  pub encode_payload : CacheKeyPayload → List ℕ

unfoldable pub content_of : HydratedDeclaration → DeclarationContent
content_of d = record {
  kind = d.kind;
  visibility = d.visibility;
  modifiers = d.modifiers;
  statement_text = d.statement_text;
  definition_body_summary = d.definition_body_summary;
}

-- The caches of the resolver pass from the left declaration to the right one.
module _ (json : Encoders) (files : Files) (fuel : ℕ) where
  unfoldable pub declaration_content_digest : HydratedDeclaration → String
  declaration_content_digest d = files.hex_digest (json.encode_content (content_of d))

  abbrev pub facts_with : HydratedDeclaration → String → DeclarationCacheFacts
  facts_with d closure = record {
    declaration_id = d.declaration_id;
    feature_version = d.feature_version;
    fingerprints = d.fingerprints;
    binder_count = d.binder_count;
    kind = d.kind;
    content_digest = declaration_content_digest d;
    closure_digest = closure;
  }

  -- Without a resolver the closure is the constant `unscoped`; `none` means that the fuel ran out.
  unfoldable pub declaration_cache_facts :
      HydratedDeclaration → Option Resolver → Option (DeclarationCacheFacts × Option Resolver)
  declaration_cache_facts d none = some (facts_with d "unscoped", none)
  declaration_cache_facts d (some resolver) =
      Option.map (λ answer. (facts_with d answer.0, some answer.1))
        (closure_digest files fuel d.module_name resolver)

  abbrev pub payload :
      ProbePair
      → ProbePolicy
      → ProbeObligation
      → DeclarationCacheFacts
      → DeclarationCacheFacts
      → CacheKeyPayload
  payload pair policy obligation left right = record {
    cache_version = "semantic-probe-cache.v3";
    policy_version = "semantic-probe-policy.v2";
    policy = probe_policy_label policy;
    obligation = obligation_label obligation;
    pair = pair;
    left = left;
    right = right;
  }

  unfoldable pub probe_cache_key :
      ProbePair
      → HydratedDeclaration
      → HydratedDeclaration
      → ProbePolicy
      → ProbeObligation
      → Option Resolver
      → Option (String × Option Resolver)
  probe_cache_key pair left right policy obligation resolver =
      and_then? (declaration_cache_facts left resolver) (λ l.
        and_then? (declaration_cache_facts right l.1) (λ r.
          some
            (files.hex_digest (json.encode_payload (payload pair policy obligation l.0 r.0)), r.1)))
