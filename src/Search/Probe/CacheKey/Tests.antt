-- ===== src/Search/Probe/CacheKey/Tests.antt =====
-- crates/search/src/semantic_verification.rs: the key of a pair before and after an unrelated edit.
use lean_dup.Index.Closure.Samples.{codes}
use lean_dup.Search.Declaration.{HydratedDeclaration}
use lean_dup.Search.Samples.{local_theorem, other_theorem}
use lean_dup.Search.Probe.CacheKey.{Encoders}

abbrev json : Encoders
json = record {
  encode_content = λ c. codes c.statement_text;
  encode_payload = λ p. codes p.left.closure_digest;
}

abbrev left : HydratedDeclaration
left = record local_theorem { module_name = "App.Main" }

abbrev right : HydratedDeclaration
right = record other_theorem { module_name = "App.Main" }
