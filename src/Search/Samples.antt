-- ===== src/Search/Samples.antt =====
-- Small declarations, candidates and queues for the tests of crates/search. Scores are numbers.
use Prim.Native.Nat.{compare}
use lean_dup.Base.{ℕ, ◌+◌, ◌/◌, String, true, false, not, none, some, List, [], ◌∷◌, ltb, FloatOps}
use lean_dup.Search.Declaration.{
  HydratedDeclaration, KeyContribution, RetrievedCandidate, CandidateSet,
}
use lean_dup.Search.Evidence.{ProbeResult, ProbePair}
use lean_dup.Search.Sources.{SourceFacts_empty}
use lean_dup.Search.Ranking.{RankingInput}
use lean_dup.Index.Provenance.{ComparisonEvidenceMode, ComparisonEvidencePolicy}

abbrev pub number_ops : FloatOps ℕ
number_ops = record {
  less = ltb;
  at_least = λ a b. not (ltb a b);
  partial_cmp = λ a b. some (compare a b);
  add = ◌+◌;
  divide = ◌/◌;
  literal = λ n. n;
}

abbrev pub declaration : String → String → String → List String → HydratedDeclaration
declaration id origin kind flags = record {
  handle = id;
  declaration_id = id;
  origin = origin;
  module_name = "M";
  qualified_name = id;
  display_name = id;
  kind = kind;
  visibility = "public";
  modifiers = [];
  source_span = none;
  statement_text = "";
  docstring_text = none;
  definition_body_summary = none;
  status_flags = flags;
  feature_version = "1";
  fingerprints = record {
    statement = "s";
    safe_binder_permutation = "p";
    connective_shape = "c";
    conclusion_shape = "o";
  };
  role_features = [];
  binder_count = 0;
  low_signal_markers = [];
}

abbrev pub local_theorem : HydratedDeclaration
local_theorem = declaration "a" "workspace" "theorem" []

abbrev pub other_theorem : HydratedDeclaration
other_theorem = declaration "b" "workspace" "theorem" []

abbrev pub library_theorem : HydratedDeclaration
library_theorem = declaration "c" "mathlib" "theorem" []

abbrev pub generated_theorem : HydratedDeclaration
generated_theorem = declaration "d" "workspace" "theorem" ("generated" ∷ [])

abbrev pub contribution : String → KeyContribution ℕ
contribution kind = record { kind = kind; role = none; display = none; key = "k"; score = 30 }

abbrev pub same_statement : List (KeyContribution ℕ)
same_statement =
    contribution "statement-fingerprint"
    ∷ contribution "conclusion-fingerprint"
    ∷ contribution "role-feature"
    ∷ []

abbrev pub candidate : String → HydratedDeclaration → RetrievedCandidate ℕ
candidate pair_id d = record {
  pair_id = pair_id;
  declaration = d;
  score = 30;
  contributions = same_statement;
  source_evidence = [];
}

abbrev pub candidate_sets : List (CandidateSet ℕ)
candidate_sets =
    record {
      anchor = local_theorem;
      candidates = candidate "a-b" other_theorem ∷ candidate "a-c" library_theorem ∷ [];
    }
    ∷ record { anchor = other_theorem; candidates = candidate "b-a" local_theorem ∷ [] }
    ∷ []

abbrev pub proved_origins : ComparisonEvidencePolicy
proved_origins =
    ("mathlib", record { mode = ComparisonEvidenceMode.proof_grade_evidence; source_root = none })
    ∷ []

abbrev pub ranking_input : RankingInput ℕ
ranking_input = record {
  candidate_sets = candidate_sets;
  semantic_evidence = [];
  source_facts = SourceFacts_empty;
  min_near_score = 24;
  transitional_alias_callers = 8;
  comparison_policy = proved_origins;
}

abbrev pub suffix : String → List String → String
suffix relation [] = ""
suffix relation (id ∷ ids) = id

abbrev pub pair : String → String → ProbePair
pair left right = record {
  pair_id = left;
  left_declaration_id = left;
  right_declaration_id = right;
}

abbrev pub row : ProbePair → ProbeResult
row p = record {
  pair_id = p.pair_id;
  left_declaration_id = p.left_declaration_id;
  right_declaration_id = p.right_declaration_id;
  status = "ok";
  same_statement = true;
  same_up_to_safe_reordering = false;
  connective_equivalent = false;
  specializes_left_to_right = false;
  specializes_right_to_left = false;
  mutual_implication_shape = false;
  same_reducible_definition = false;
  message = none;
}
