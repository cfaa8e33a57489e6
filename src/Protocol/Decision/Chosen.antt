-- ===== src/Protocol/Decision/Chosen.antt =====
-- What a valid decision says of its options and its choice.
use idr.Base.{
  ◌≤◌, ◌≡◌, ◌↔◌, ◌⊎◌, true, ok, arith, [], length, is_some, some, Elem, Text, text_eq, text_ord,
  sort_dedup-Elem, contains, contains_iff,
}
use idr.Protocol.Reference.{Reference}
use idr.Protocol.Id.{rank}
use idr.Protocol.Digest.{Codec}
use idr.Protocol.Decision.{
  DecisionContract, Recommendation, user_decided, recommendation_ready, option_texts, option_refs,
  weights, sum, badly_weighted, check_recommendation, check_collections, check_choice, validate,
}

valid_collections :
    (codec : Codec) (d : DecisionContract) → validate codec d ≡ ok tt → check_collections d ≡ ok tt
unfolding validate
valid_collections codec d h = ground arith

valid_choice :
    (codec : Codec) (d : DecisionContract) → validate codec d ≡ ok tt → check_choice d ≡ ok tt
unfolding validate
valid_choice codec d h = ground arith

collections-weights :
    (d : DecisionContract)
    → check_collections d ≡ ok tt
    → (length (option_refs d) ≡ length d.options)
      × ((weights d.criteria ≡ [])
          ⊎ ((length (weights d.criteria) ≡ length d.criteria)
              × (sum (weights d.criteria) ≡ 10000)))
unfolding check_collections badly_weighted
collections-weights d h = (ground arith, ground arith)

choice-known :
    (d : DecisionContract) (r : Reference)
    → check_choice d ≡ ok tt
    → d.selected_option_ref ≡ some r
    → contains (option_refs d) r.text ≡ true
unfolding check_choice
choice-known d r h e = ground arith

choice-recommended :
    (d : DecisionContract) (r : Recommendation)
    → check_choice d ≡ ok tt
    → d.recommendation ≡ some r
    → contains (option_refs d) r.option_ref.text ≡ true
unfolding check_choice check_recommendation
choice-recommended d r h e = ground arith

choice-staged :
    (d : DecisionContract)
    → check_choice d ≡ ok tt
    → ((d.stage ≡ user_decided) ↔ (is_some d.selected_option_ref ≡ true))
      × (d.stage ≡ recommendation_ready → is_some d.recommendation ≡ true)
      × (rank d.authorization_boundary.maximum_automatic_impact ≤ 1)
unfolding check_choice
choice-staged d h = (ground arith, (λ e. ground arith), ground arith)

-- In a valid decision the options have distinct references, among which are the recommended and
-- the selected one; an option is selected exactly in the stage `user_decided`; a recommendation is
-- there once it is ready; no impact above medium is automatic; and the weights of the criteria are
-- none, or one for each criterion and 10,000 basis points together.
pub validate-chosen :
    (codec : Codec) (d : DecisionContract)
    → validate codec d ≡ ok tt
    → (length (option_refs d) ≡ length d.options)
      × ((r : Reference) → d.selected_option_ref ≡ some r → Elem r.text (option_texts d))
      × ((r : Recommendation) → d.recommendation ≡ some r → Elem r.option_ref.text (option_texts d))
      × ((d.stage ≡ user_decided) ↔ (is_some d.selected_option_ref ≡ true))
      × (d.stage ≡ recommendation_ready → is_some d.recommendation ≡ true)
      × (rank d.authorization_boundary.maximum_automatic_impact ≤ 1)
      × ((weights d.criteria ≡ [])
          ⊎ ((length (weights d.criteria) ≡ length d.criteria)
              × (sum (weights d.criteria) ≡ 10000)))
validate-chosen codec d h =
    let collections = valid_collections codec d h in
    let choice = valid_choice codec d h in
    let (distinct, weighted) = collections-weights d collections in
    let (decided, ready, automatic) = choice-staged d choice in
    let known : (t : Text) → contains (option_refs d) t ≡ true → Elem t (option_texts d) =
      λ t e. (sort_dedup-Elem t (option_texts d)).0 ((contains_iff (option_refs d) t).0 e) in
    (
      distinct,
      (λ r e. known r.text (choice-known d r choice e)),
      (λ r e. known r.option_ref.text (choice-recommended d r choice e)),
      decided,
      ready,
      automatic,
      weighted,
    )
