-- ===== src/Search/Probe/Verify/Chunked.antt =====
-- crates/search/src/semantic_verification.rs: the chunks of the missing probes, and the loop over them.
use lean_dup.Base.{
  ℕ, zero, suc, ◌+◌, ◌*◌, ◌≤◌, ◌<◌, String, List, [], ◌∷◌, ◌++◌, take, drop, length, All,
  All-append, All-imp, length-take, length-drop, take-append-drop, ◌≡◌, refl, ap, ◌∙◌, arith,
}
use lean_dup.Search.Probe.{PlannedProbe}
use lean_dup.Search.Probe.Chunks.{Run, Outcome}
use lean_dup.Search.Probe.Chunks.Absorb.{Answered}
use lean_dup.Search.Probe.Chunks.Recovery.{IsAnswered}
use lean_dup.Search.Probe.Verify.{chunks_from, chunks, run_chunks}

abbrev pub flat {ℓ} : {A : Type ℓ} → List (List A) → List A
flat [] = []
flat (xs ∷ xss) = xs ++ flat xss

module _ {ℓ} {A : Type ℓ} (n : ℕ) (size : 0 < n) where
  chunks_from-flat : (fuel : ℕ) (xs : List A) → length xs ≤ fuel → flat (chunks_from fuel n xs) ≡ xs
  unfolding chunks_from
  chunks_from-flat zero [] h = refl
  chunks_from-flat zero (x ∷ xs) h = absurd (omega arith)
  chunks_from-flat (suc fuel) [] h = refl
  chunks_from-flat (suc fuel) (x ∷ xs) h =
      ap (◌++◌ (take n (x ∷ xs)))
        (chunks_from-flat fuel (drop n (x ∷ xs)) (omega (arith, length-drop n (x ∷ xs))))
      ∙ take-append-drop n (x ∷ xs)

  chunks_from-nonempty :
      (fuel : ℕ) (xs : List A) → All (λ chunk. 1 ≤ length chunk) (chunks_from fuel n xs)
  unfolding chunks_from
  chunks_from-nonempty zero xs = tt
  chunks_from-nonempty (suc fuel) [] = tt
  chunks_from-nonempty (suc fuel) (x ∷ xs) =
      (omega (arith, length-take n (x ∷ xs)), chunks_from-nonempty fuel (drop n (x ∷ xs)))

  pub chunks-flat : (xs : List A) → flat (chunks n xs) ≡ xs
  unfolding chunks
  chunks-flat xs = chunks_from-flat (length xs) xs (omega arith)

  pub chunks-nonempty : (xs : List A) → All (λ chunk. 1 ≤ length chunk) (chunks n xs)
  unfolding chunks
  chunks-nonempty xs = chunks_from-nonempty (length xs) xs

-- What a loop that comes to an end has done for its probes.
pub record AreAnswered (probes : List PlannedProbe) (r r' : Run) : Type 0 where
  pub answered : All (λ p. Answered r' p.pair.pair_id) probes
  pub kept : (pair_id : String) → Answered r pair_id → Answered r' pair_id
  pub few_batches : r'.diagnostics.worker_batches ≤ r.diagnostics.worker_batches + 2 * length probes

length-flat_cons : (xs ys : List PlannedProbe) → length (xs ++ ys) ≡ length xs + length ys
length-flat_cons [] ys = omega arith
length-flat_cons (x ∷ xs) ys = omega (arith, length-flat_cons xs ys)

-- Chunks that each come to an end are answered one after the other.
pub run_chunks-AreAnswered :
    (run : List PlannedProbe → Run → Outcome)
    → ((chunk : List PlannedProbe) (r : Run)
        → 1 ≤ length chunk
        → (r' : Run) × (run chunk r ≡ Outcome.done r') × IsAnswered chunk r r')
    → (cs : List (List PlannedProbe)) (r : Run) → All (λ chunk. 1 ≤ length chunk) cs
    → (r' : Run) × (run_chunks run cs r ≡ Outcome.done r') × AreAnswered (flat cs) r r'
unfolding run_chunks
run_chunks-AreAnswered run ends [] r h =
    (r, refl, record { answered = tt; kept = λ id a. a; few_batches = omega arith })
run_chunks-AreAnswered run ends (chunk ∷ cs) r h =
    let (r', e, a) = ends chunk r h.0 in
    let (r'', e', b) = run_chunks-AreAnswered run ends cs r' h.1 in
    (
      r'',
      rw e e',
      record {
        answered =
            All-append (λ p. Answered r'' p.pair.pair_id) chunk (flat cs)
              (All-imp (λ p k. b.kept p.pair.pair_id k) chunk a.answered) b.answered;
        kept = λ id k. b.kept id (a.kept id k);
        few_batches = omega (arith, a.few_batches, b.few_batches, length-flat_cons chunk (flat cs));
      },
    )
