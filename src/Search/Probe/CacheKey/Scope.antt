-- ===== src/Search/Probe/CacheKey/Scope.antt =====
-- crates/search/src/semantic_verification.rs: edits outside the closures of both modules leave the
-- key of a probe as it was.
use lean_dup.Base.{List, ℕ, String}
use lean_dup.Index.Closure.{closure_digest}
use lean_dup.Search.Declaration.{HydratedDeclaration}
use lean_dup.Search.Evidence.{ProbePair, ProbeObligation}
use lean_dup.Search.Probe.{ProbePolicy, obligation_label}
use lean_dup.Search.Probe.Diagnostics.{probe_policy_label}
use lean_dup.Search.Probe.CacheKey.{Encoders, DeclarationCacheFacts, content_of}

-- The facts of a declaration, and the key that two digests of closures give, by the hash alone.
abbrev facts_by :
    Encoders → (List ℕ → String) → HydratedDeclaration → String → DeclarationCacheFacts
facts_by json hash d closure = record {
  declaration_id = d.declaration_id;
  feature_version = d.feature_version;
  fingerprints = d.fingerprints;
  binder_count = d.binder_count;
  kind = d.kind;
  content_digest = hash (json.encode_content (content_of d));
  closure_digest = closure;
}

module _ (json : Encoders) (pair : ProbePair) (left right : HydratedDeclaration)
    (policy : ProbePolicy) (obligation : ProbeObligation) where
  abbrev key_by : (List ℕ → String) → String → String → String
  key_by hash l r = hash (
      json.encode_payload (record {
        cache_version = "semantic-probe-cache.v3";
        policy_version = "semantic-probe-policy.v2";
        policy = probe_policy_label policy;
        obligation = obligation_label obligation;
        pair = pair;
        left = facts_by json hash left l;
        right = facts_by json hash right r;
      }))
