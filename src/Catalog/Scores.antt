-- ===== src/Catalog/Scores.antt =====
-- What a result of `scoreItem` and the filters is.
use openapi_to.Common.{
  text_eq, ◌⊎◌, text_equality, nat_equality, ℕ, ◌+◌, ◌≤◌, Text, Bool, true, false, ◌||◌, Option,
  none, some, List, [], ◌∷◌, filter, All, ◌≡◌, refl, sym, arith, Bool-cases, Option-cases, inl, inr,
  if◌then◌else◌, nat_eq, subst,
}
use openapi_to.Catalog.Search.{
  OperationCatalogItem, OperationSearchOptions, OperationSearchResult, SearchField, TokenScore,
  fields, candidate, best_field, score_tokens, exact_score, exact_reasons, finish_score, score_item,
  is_wanted, score_all, is_nil,
}

module _ (normalize : Text → Text) (tokens : Text → List Text) where
  -- Every field that matches is worth 14 at least.
  IsWorth : SearchField → Type 0
  IsWorth f = (14 ≤ f.weight) × (14 ≤ f.partial)

  fields-IsWorth : (item : OperationCatalogItem) → All IsWorth (fields item)
  unfolding fields IsWorth
  fields-IsWorth item = ground arith

  best-least :
      (t : Text) (fs : List SearchField) (best : TokenScore)
      → All IsWorth fs
      → (best.score ≡ 0) ⊎ (14 ≤ best.score)
      → ((best_field normalize tokens t fs best).score ≡ 0)
        ⊎ (14 ≤ (best_field normalize tokens t fs best).score)
  unfolding best_field candidate IsWorth
  best-least t [] best h k = k
  best-least t (f ∷ fs) best h k = best-least t fs _ h.1 (ground (arith, h.0))

  -- A score, where there is one, is at least the number.
  abbrev AtLeast : ℕ → Option (ℕ × List Text) → Type 0
  AtLeast n none = Unit
  AtLeast n (some r) = n ≤ r.0

  AtLeast-trans : (m n : ℕ) (o : Option (ℕ × List Text)) → m ≤ n → AtLeast n o → AtLeast m o
  AtLeast-trans m n none h k = tt
  AtLeast-trans m n (some r) h k = omega (arith, h, k)

  abbrev best_of : OperationCatalogItem → Text → TokenScore
  best_of item t = best_field normalize tokens t (fields item) (record { score = 0; reason = none })

  tokens-grow :
      (item : OperationCatalogItem) (ts : List Text) (score : ℕ) (reasons : List Text)
      → AtLeast score (score_tokens normalize tokens item ts score reasons)
  unfolding score_tokens
  tokens-grow item [] score reasons = omega arith
  tokens-grow item (t ∷ ts) score reasons = elim (Bool-cases (nat_eq (best_of item t).score 0)) [
    | inl nothing ↦ rw (nothing, score_tokens) tt
    | inr something ↦
        rw (something, score_tokens)
          (AtLeast-trans score (score + (best_of item t).score) _ (omega arith)
            (tokens-grow item ts _ _))
  ]

  tokens-least :
      (item : OperationCatalogItem) (t : Text) (ts : List Text) (score : ℕ) (reasons : List Text)
      → AtLeast 14 (score_tokens normalize tokens item (t ∷ ts) score reasons)
  unfolding score_tokens
  tokens-least item t ts score reasons = elim (Bool-cases (nat_eq (best_of item t).score 0)) [
    | inl nothing ↦ rw (nothing, score_tokens) tt
    | inr something ↦
        rw (something, score_tokens)
          (AtLeast-trans 14 (score + (best_of item t).score) _
            (ground (
              arith,
              best-least t (fields item) (record { score = 0; reason = none }) (fields-IsWorth item)
                  (inl refl),
            ))
            (tokens-grow item ts _ _))
  ]

  -- What a result of the query is.
  abbrev pub IsResult : Text → OperationSearchOptions → OperationSearchResult → Type 0
  IsResult query options r =
      (is_wanted normalize tokens options r.item ≡ true)
      × (score_item normalize tokens query r.item ≡ some r)
      × (4 ≤ r.score)

  abbrev Scored : OperationCatalogItem → Option OperationSearchResult → Type 0
  Scored item none = Unit
  Scored item (some r) = (r.item ≡ item) × (4 ≤ r.score)

  finish-Scored :
      (item : OperationCatalogItem) (o : Option (ℕ × List Text))
      → AtLeast 14 o
      → Scored item (finish_score normalize tokens item o)
  unfolding finish_score
  finish-Scored item none h = tt
  finish-Scored item (some (score, reasons)) h = (refl, ground (arith, h))

  score_item-Scored :
      (query : Text) (item : OperationCatalogItem)
      → Scored item (score_item normalize tokens query item)
  unfolding score_item
  score_item-Scored query item = by_tokens (tokens query) (text_eq (normalize query) [])
    where
      by_tokens :
          (ts : List Text) (blank : Bool)
          → Scored item (
              if blank || is_nil ts
              then none
              else finish_score normalize tokens item (
                  score_tokens normalize tokens item ts
                    (exact_score normalize tokens item (normalize query))
                    (exact_reasons normalize tokens item (normalize query))))
      by_tokens ts true = tt
      by_tokens [] false = tt
      by_tokens (t ∷ ts) false = finish-Scored item _ (tokens-least item t ts _ _)

  pub score_all-IsResult :
      (query : Text) (options : OperationSearchOptions) (items : List OperationCatalogItem)
      → All
          (IsResult query options)
          (score_all normalize tokens query (filter (is_wanted normalize tokens options) items))
  unfolding score_all filter
  score_all-IsResult query options [] = tt
  score_all-IsResult query options (i ∷ is) =
      elim (Bool-cases (is_wanted normalize tokens options i)) [
        | inr unwanted ↦ rw unwanted (score_all-IsResult query options is)
        | inl wanted ↦ elim (Option-cases (score_item normalize tokens query i)) [
          | inl missing ↦ rw wanted (rw (missing, score_all) (score_all-IsResult query options is))
          | inr (r, found) ↦
              rw wanted (
                rw (found, score_all)
                  (result i r wanted found, score_all-IsResult query options is))
        ]
      ]
    where
      result :
          (i : OperationCatalogItem) (r : OperationSearchResult)
          → is_wanted normalize tokens options i ≡ true
          → score_item normalize tokens query i ≡ some r
          → IsResult query options r
      result i r wanted found =
          let scored : Scored i (some r) = subst (Scored i) found (score_item-Scored query i) in
          subst
            (λ j.
              (is_wanted normalize tokens options j ≡ true)
              × (score_item normalize tokens query j ≡ some r)
              × (4 ≤ r.score))
            (sym scored.0) (wanted, found, scored.1)
