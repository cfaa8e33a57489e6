-- ===== src/Protocol/Intent/Ranking.antt =====
-- What `validate_ranked_hypotheses` says of a list that it accepts.
use Prim.Native.Nat.{◌%◌}
use idr.Base.{
  ℕ, zero, suc, ◌+◌, ◌≤◌, ◌<◌, ◌≡◌, ◌≢◌, ◌↔◌, ◌⊎◌, inl, inr, ◌==◌, nat_eq, none, nat_ord, List, [],
  ◌∷◌, map, length, ok, Text, text_ord, Elem, arith, subst, sym, refl, Result-cases, Bool-cases,
  Distinct, text_eq,
}
use idr.Base.BTree.{lookup, update, add}
use idr.Base.BTree.Laws.{lookup-update_same, lookup-update_other, add-Elem}
use idr.Protocol.Intent.{
  RankedHypothesis, collect_ranks, ranks_from, validate_ranked_hypotheses, validate_hypothesis,
  hypothesis_texts,
}

abbrev pub ranks : List RankedHypothesis → List ℕ
ranks values = map (λ (v : RankedHypothesis). v.rank) values

-- The first round of the loop, where it goes on.
collect-step :
    (v : RankedHypothesis) (vs : List RankedHypothesis) (s out : List ℕ) (m : List (Text × ℕ))
    → collect_ranks (v ∷ vs) s m ≡ ok out
    → (lookup v.hypothesis.hypothesis_ref.text m ≡ none)
      × (collect_ranks vs
            (add v.rank s).1
            (update v.hypothesis.hypothesis_ref.text v.rank (λ _. v.rank) m)
          ≡ ok out)
unfolding collect_ranks
collect-step v vs s out m h = elim (Result-cases (validate_hypothesis v.hypothesis)) [
  | inl (u, e) ↦ ground arith
  | inr (x, e) ↦ ground arith
]

collect-Elem :
    (k : ℕ) (vs : List RankedHypothesis) (s out : List ℕ) (m : List (Text × ℕ))
    → collect_ranks vs s m ≡ ok out
    → Elem k out ↔ (Elem k s ⊎ Elem k (ranks vs))
collect-Elem k [] s out m h = unfold collect_ranks in ground arith
collect-Elem k (v ∷ vs) s out m h =
    let step = collect-step v vs s out m h in
    ground (
      arith,
      add-Elem k v.rank s,
      collect-Elem k vs (add v.rank s).1 out
          (update v.hypothesis.hypothesis_ref.text v.rank (λ _. v.rank) m) step.1,
    )

-- A reference that the map lacks after a change is another one, and was lacking before.
absent_before :
    (t key : Text) (r : ℕ) (m : List (Text × ℕ))
    → lookup t (update key r (λ _. r) m) ≡ none
    → (t ≢ key) × (lookup t m ≡ none)
absent_before t key r m h = (
  (λ e. ground (arith, lookup-update_same r (λ _. r) key m)),
  elim (Bool-cases (t == key)) [
    | inl e ↦ ground (arith, lookup-update_same r (λ _. r) key m)
    | inr e ↦ ground (arith, lookup-update_other r (λ _. r) key t m)
  ],
)

collect-Distinct :
    (vs : List RankedHypothesis) (s out : List ℕ) (m : List (Text × ℕ))
    → collect_ranks vs s m ≡ ok out
    → Distinct (hypothesis_texts vs)
      × ((t : Text) → Elem t (hypothesis_texts vs) → lookup t m ≡ none)
collect-Distinct [] s out m h = (tt, λ t e. elim e [ ])
collect-Distinct (v ∷ vs) s out m h =
    let key = v.hypothesis.hypothesis_ref.text in
    let step = collect-step v vs s out m h in
    let rest =
      collect-Distinct vs (add v.rank s).1 out (update key v.rank (λ _. v.rank) m) step.1 in
    (
      ((λ e. (absent_before key key v.rank m (rest.1 key e)).0 refl), rest.0),
      λ t e. elim e [
        | inl same ↦ subst (λ (x : Text). lookup x m ≡ none) (sym same) step.0
        | inr later ↦ (absent_before t key v.rank m (rest.1 t later)).1
      ],
    )

-- No rank wraps: a list that is accepted has at most 256 hypotheses.
ranks_from-Elem :
    (k start n : ℕ) → start + n ≤ 65536 → Elem k (ranks_from start n) ↔ (start ≤ k × k < start + n)
unfolding ranks_from
ranks_from-Elem k start zero h = ground arith
ranks_from-Elem k start (suc n) h =
    let small : start % 65536 ≡ start = omega arith in
    ground (arith, small, ranks_from-Elem k (start + 1) n (omega arith))

accepted :
    (vs : List RankedHypothesis)
    → validate_ranked_hypotheses vs ≡ ok tt
    → (length vs ≤ 256) × (collect_ranks vs [] [] ≡ ok (ranks_from 1 (length vs)))
unfolding validate_ranked_hypotheses
accepted vs h = elim (Result-cases (collect_ranks vs [] [])) [
  | inl (out, e) ↦ ground arith
  | inr (x, e) ↦ ground arith
]

-- An accepted list ranks its hypotheses from 1 to their number, each rank once: the ranks that
-- occur are exactly those, and no two hypotheses have the same reference.
pub validate_ranked_hypotheses-ok :
    (vs : List RankedHypothesis)
    → validate_ranked_hypotheses vs ≡ ok tt
    → ((k : ℕ) → Elem k (ranks vs) ↔ (1 ≤ k × k ≤ length vs)) × Distinct (hypothesis_texts vs)
validate_ranked_hypotheses-ok vs h =
    let (few, collected) = accepted vs h in
    (
      (λ k. ground (
        arith,
        collect-Elem k vs [] (ranks_from 1 (length vs)) [] collected,
        ranks_from-Elem k 1 (length vs),
      )),
      (collect-Distinct vs [] (ranks_from 1 (length vs)) [] collected).0,
    )
