-- ===== src/Jev/Verdict.antt =====
-- The explanation of a stored judgment agrees with the judgment that `compose` made.
use invoice_ocr_poc.Base.{
  Bool, false, not, ◌&&◌, ◌||◌, List, [], ◌∷◌, ◌++◌, ◌≡◌, refl, arith, String, Int64, str_eq, any,
  is_empty, if◌then◌else◌,
}
use invoice_ocr_poc.Float.{Float}
use invoice_ocr_poc.Store.Invoice.{Invoice}
use invoice_ocr_poc.Service.Apply.{apply_judgment}
use invoice_ocr_poc.Jev.Answers.{State, Response}
use invoice_ocr_poc.Jev.Compose.{compose, confidence_floor}
use invoice_ocr_poc.Jev.Explain.{
  Question, Factor, CodeCheck, has_factor, triggered_factors, mismatch_factors, routing_factors,
  questions_of, mismatch_of, determinants_of, explain,
}

has_factor-append :
    (fs gs : List Factor) (id : String)
    → has_factor (fs ++ gs) id ≡ (has_factor fs id || has_factor gs id)
unfolding has_factor
has_factor-append [] gs id = refl
has_factor-append (f ∷ fs) gs id = ground (arith, has_factor-append fs gs id)

is_empty-append : (fs gs : List Factor) → is_empty (fs ++ gs) ≡ (is_empty fs && is_empty gs)
is_empty-append [] gs = refl
is_empty-append (f ∷ fs) gs = refl

module _ {F : Type 0} ⦃d : Float F⦄ (fixed2 : F → String) where
  abbrev pub is_triggered : Question F → Bool
  is_triggered q = q.triggered

  abbrev pub check_triggered : CodeCheck F → Bool
  check_triggered c = c.triggered

  is_empty-triggered_factors :
      (qs : List (Question F)) → is_empty (triggered_factors fixed2 qs) ≡ not (any is_triggered qs)
  unfolding triggered_factors
  is_empty-triggered_factors [] = refl
  is_empty-triggered_factors (q ∷ qs) = ground (arith, is_empty-triggered_factors qs)

  has_factor-triggered_factors :
      (qs : List (Question F)) (id : String)
      → has_factor (triggered_factors fixed2 qs) id ≡ any (λ q. q.triggered && str_eq q.id id) qs
  unfolding triggered_factors has_factor
  has_factor-triggered_factors [] id = refl
  has_factor-triggered_factors (q ∷ qs) id = ground (arith, has_factor-triggered_factors qs id)

  -- In an invoice that has the composed judgment and the totals that were judged.
  module _ (show_int : Int64 → String) (state : State F) (resp : Response F) (inv : Invoice F)
      (estimated : inv.estimated_total ≡ state.extracted.estimated_total)
      (computed : inv.computed_items_total ≡ state.extracted.computed_items_total) where
    abbrev pub judged : Invoice F
    judged = apply_judgment (compose show_int state resp) inv

    triggered_eq :
        (any is_triggered (questions_of judged) || mismatch_of judged) ≡ judged.needs_review
    unfolding apply_judgment compose questions_of mismatch_of
    triggered_eq = rw (estimated, computed) (ground arith)

    found : List Factor
    found = triggered_factors fixed2 (questions_of judged) ++ mismatch_factors fixed2 judged

    is_empty-mismatch_factors : is_empty (mismatch_factors fixed2 judged) ≡ not (mismatch_of judged)
    unfolding mismatch_factors
    is_empty-mismatch_factors = ground arith

    is_empty-found : is_empty found ≡ not judged.needs_review
    unfolding found
    is_empty-found = ground (
      arith,
      is_empty-append (triggered_factors fixed2 (questions_of judged))
          (mismatch_factors fixed2 judged),
      is_empty-triggered_factors (questions_of judged),
      is_empty-mismatch_factors,
      triggered_eq,
    )

    has_factor-mismatch_factors : has_factor (mismatch_factors fixed2 judged) "routing" ≡ false
    unfolding mismatch_factors has_factor
    has_factor-mismatch_factors = ground arith

    routing_asked :
        any (λ q. q.triggered && str_eq q.id "routing") (questions_of judged)
        ≡ d.lt judged.routing_confidence confidence_floor
    unfolding questions_of
    routing_asked = ground arith

    has_factor-found : has_factor found "routing" ≡ d.lt judged.routing_confidence confidence_floor
    unfolding found
    has_factor-found = ground (
      arith,
      has_factor-append (triggered_factors fixed2 (questions_of judged))
          (mismatch_factors fixed2 judged) "routing",
      has_factor-triggered_factors (questions_of judged) "routing",
      has_factor-mismatch_factors,
      routing_asked,
    )

    has_factor-found_effective : has_factor found "effective_routing" ≡ false
    unfolding found
    has_factor-found_effective = ground (
      arith,
      has_factor-append (triggered_factors fixed2 (questions_of judged))
          (mismatch_factors fixed2 judged) "effective_routing",
      has_factor-triggered_factors (questions_of judged) "effective_routing",
      mismatch_unnamed,
      none_asked,
    )
      where
        mismatch_unnamed : has_factor (mismatch_factors fixed2 judged) "effective_routing" ≡ false
        mismatch_unnamed = unfold mismatch_factors has_factor in ground arith

        none_asked :
            any (λ q. q.triggered && str_eq q.id "effective_routing") (questions_of judged) ≡ false
        none_asked = unfold questions_of in ground arith

    routing_factors_empty :
        is_empty (routing_factors fixed2 judged found)
        ≡ not (
            str_eq judged.suggested_routing "other"
            && not (d.lt judged.routing_confidence confidence_floor))
    unfolding routing_factors
    routing_factors_empty = ground (arith, has_factor-found)

    routing_factors_named :
        has_factor (routing_factors fixed2 judged found) "effective_routing"
        ≡ not (is_empty (routing_factors fixed2 judged found))
    unfolding routing_factors has_factor
    routing_factors_named = ground arith

    routing_factors_other : has_factor (routing_factors fixed2 judged found) "routing" ≡ false
    unfolding routing_factors has_factor
    routing_factors_other = ground arith

    effective_eq : judged.effective_routing ≡ (
        if str_eq judged.suggested_routing "other"
          || d.lt judged.routing_confidence confidence_floor
        then "review"
        else judged.suggested_routing)
    unfolding apply_judgment compose
    effective_eq = refl

    needs_eq : judged.items_confirmed ≡ not judged.needs_review
    unfolding apply_judgment compose
    needs_eq = refl

    low_is_reviewed :
        (not judged.needs_review && d.lt judged.routing_confidence confidence_floor) ≡ false
    unfolding apply_judgment compose
    low_is_reviewed = ground arith

    is_empty-determinants :
        is_empty (determinants_of fixed2 judged)
        ≡ (not judged.needs_review && not (str_eq judged.suggested_routing "other"))
    unfolding determinants_of found
    is_empty-determinants = ground (
      arith,
      is_empty-append found (routing_factors fixed2 judged found),
      is_empty-found,
      routing_factors_empty,
      low_is_reviewed,
    )

    has_factor-determinants :
        (has_factor (determinants_of fixed2 judged) "routing"
          || has_factor (determinants_of fixed2 judged) "effective_routing")
        ≡ (str_eq judged.suggested_routing "other"
            || d.lt judged.routing_confidence confidence_floor)
    unfolding determinants_of found
    has_factor-determinants = ground (
      arith,
      has_factor-append found (routing_factors fixed2 judged found) "routing",
      has_factor-append found (routing_factors fixed2 judged found) "effective_routing",
      has_factor-found,
      has_factor-found_effective,
      routing_factors_other,
      routing_factors_named,
      routing_factors_empty,
    )

    -- For an invoice that holds the composed judgment and the totals that were judged: the
    -- explanation marks the invoice for review exactly when it shows a triggered question or code
    -- check, and confirms the items exactly when it does not; it lists no determinant exactly when
    -- there is no review and the suggested desk is not "other"; and the effective routing is "review"
    -- exactly when a routing determinant is listed, and the suggested desk if none is.
    pub explain_faithful :
        let a = explain fixed2 judged in
        (a.verdict.needs_review
          ≡ (any is_triggered a.questions || any check_triggered a.code_checks))
        × (a.verdict.items_confirmed ≡ not a.verdict.needs_review)
        × (is_empty a.determinants
            ≡ (not a.verdict.needs_review && not (str_eq judged.suggested_routing "other")))
        × (judged.effective_routing ≡ (
            if has_factor a.determinants "routing" || has_factor a.determinants "effective_routing"
            then "review"
            else judged.suggested_routing))
    unfolding explain
    explain_faithful = (
      ground (arith, triggered_eq),
      needs_eq,
      is_empty-determinants,
      rw has_factor-determinants effective_eq,
    )
