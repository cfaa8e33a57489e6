-- ===== src/Protocol/Intent/Personal.antt =====
-- What a valid intent says of the person's hypotheses beside the base ones.
use idr.Base.{
  ◌≤◌, ◌≡◌, ◌↔◌, true, ok, arith, [], ℕ, length, Elem, Text, text_eq, text_ord, all-true,
  sort_dedup-Elem, contains, contains_iff, Distinct, any-false, not, false, all,
}
use idr.Protocol.ContractRef.{contract_ref_eq}
use idr.Protocol.Digest.{Codec}
use idr.Protocol.Intent.{
  IntentContract, IntentEffect, deterministic_fast_path, hypothesis_texts, hypothesis_refs,
  miscomposed, validate_ranked_hypotheses, validate,
}
use idr.Protocol.Intent.Ranking.{ranks, validate_ranked_hypotheses-ok}

-- The tests of `miscomposed`, on the lists of references in place of the sets.
composed :
    (i : IntentContract) (t : Text)
    → miscomposed i ≡ false
    → (Elem t (hypothesis_texts i.base_hypotheses)
        → Elem t (hypothesis_texts i.personalized_hypotheses))
      × Elem i.primary_hypothesis_ref.text (hypothesis_texts i.personalized_hypotheses)
      × (i.resolution_method ≡ deterministic_fast_path
          → (i.human_model_effects ≡ [])
            × (Elem t (hypothesis_texts i.base_hypotheses)
                ↔ Elem t (hypothesis_texts i.personalized_hypotheses)))
unfolding miscomposed
composed i t h =
    let base = hypothesis_texts i.base_hypotheses in
    let personal = hypothesis_texts i.personalized_hypotheses in
    let in_base = sort_dedup-Elem t base in
    let in_personal = sort_dedup-Elem t personal in
    let primary = sort_dedup-Elem i.primary_hypothesis_ref.text personal in
    let all_contained : all (contains (hypothesis_refs i.personalized_hypotheses))
          (hypothesis_refs i.base_hypotheses)
        ≡ true =
      ground arith in
    let has_primary : contains (hypothesis_refs i.personalized_hypotheses)
          i.primary_hypothesis_ref.text
        ≡ true =
      ground arith in
    (
      (λ m. in_personal.0 (
          (contains_iff (hypothesis_refs i.personalized_hypotheses) t).0 (
            all-true (contains (hypothesis_refs i.personalized_hypotheses)) t
              (hypothesis_refs i.base_hypotheses) all_contained (in_base.1 m)))),
      primary.0 (
          (contains_iff (hypothesis_refs i.personalized_hypotheses) i.primary_hypothesis_ref.text).0
            has_primary),
      λ fast. (ground arith, ground (arith, in_base, in_personal)),
    )

effects-known :
    (i : IntentContract) (e : IntentEffect)
    → miscomposed i ≡ false
    → Elem e i.human_model_effects
    → Elem e.assertion_ref i.metadata.dependency_refs
unfolding miscomposed
effects-known i e h m =
    let known : not (contains i.metadata.dependency_refs e.assertion_ref) ≡ false =
      any-false (λ (x : IntentEffect). not (contains i.metadata.dependency_refs x.assertion_ref)) e
        i.human_model_effects (ground arith) m in
    (contains_iff i.metadata.dependency_refs e.assertion_ref).0 (ground arith)

valid-parts :
    (codec : Codec) (i : IntentContract)
    → validate codec i ≡ ok tt
    → (miscomposed i ≡ false)
      × (validate_ranked_hypotheses i.base_hypotheses ≡ ok tt)
      × (validate_ranked_hypotheses i.personalized_hypotheses ≡ ok tt)
unfolding validate
valid-parts codec i h = (ground arith, ground arith, ground arith)

-- In a valid intent the reference of every base hypothesis is also the reference of a personalized
-- one, and so is the primary reference: what is known of the person may reorder and add, and takes
-- no reference away. A fast path has no effect of the human model, and the same set of references
-- on both sides. Every effect names an assertion among the contract's dependencies.
pub validate-personalized :
    (codec : Codec) (i : IntentContract)
    → validate codec i ≡ ok tt
    → ((t : Text)
        → Elem t (hypothesis_texts i.base_hypotheses)
        → Elem t (hypothesis_texts i.personalized_hypotheses))
      × Elem i.primary_hypothesis_ref.text (hypothesis_texts i.personalized_hypotheses)
      × (i.resolution_method ≡ deterministic_fast_path
          → (i.human_model_effects ≡ [])
            × ((t : Text)
                → Elem t (hypothesis_texts i.base_hypotheses)
                  ↔ Elem t (hypothesis_texts i.personalized_hypotheses)))
      × ((e : IntentEffect)
          → Elem e i.human_model_effects
          → Elem e.assertion_ref i.metadata.dependency_refs)
validate-personalized codec i h =
    let (fits, _, _) = valid-parts codec i h in
    let primary = i.primary_hypothesis_ref.text in
    (
      (λ t. (composed i t fits).0),
      (composed i primary fits).1,
      (λ fast. (((composed i primary fits).2 fast).0, λ t. ((composed i t fits).2 fast).1)),
      λ e. effects-known i e fits,
    )

-- In a valid intent the base hypotheses and the personalized ones are each ranked from 1 to their
-- number, every rank once, and no two of either have the same reference.
pub validate-ranked :
    (codec : Codec) (i : IntentContract)
    → validate codec i ≡ ok tt
    → (((k : ℕ) → Elem k (ranks i.base_hypotheses) ↔ (1 ≤ k × k ≤ length i.base_hypotheses))
        × Distinct (hypothesis_texts i.base_hypotheses))
      × (((k : ℕ)
            → Elem k (ranks i.personalized_hypotheses)
              ↔ (1 ≤ k × k ≤ length i.personalized_hypotheses))
          × Distinct (hypothesis_texts i.personalized_hypotheses))
validate-ranked codec i h =
    let (_, base, personal) = valid-parts codec i h in
    (
      validate_ranked_hypotheses-ok i.base_hypotheses base,
      validate_ranked_hypotheses-ok i.personalized_hypotheses personal,
    )
