-- ===== src/Openrouter/Outcome.antt =====
-- What a call of `Assist` in internal/openrouter/client.go can return.
use invoice_ocr_poc.Base.{
  true, false, Option, none, some, List, [], ◌∷◌, ◌++◌, ◌≡◌, ◌≢◌, ◌⊎◌, inl, inr, refl, sym, ap, ◌∙◌,
  Option-cases, arith, Int64, All, All-append, is_empty, Bool-cases,
}
use invoice_ocr_poc.Errors.{Result, ok, err, Result-cases}
use invoice_ocr_poc.Float.{Float, nought}
use invoice_ocr_poc.Strings.{Text, codes}
use invoice_ocr_poc.Http.{Reply, Transport, Verbs, is_success}
use invoice_ocr_poc.Extract.{Item, Extract, incomplete}
use invoice_ocr_poc.Openrouter.Assist.{
  AssistItem, AssistJson, collect, take_item, to_item, is_void, unfence, round_cents, assisted,
  read_answer, parse_assist,
}
use invoice_ocr_poc.Openrouter.Client.{
  Client, ChatResponse, Json, chat_request, first_choice, read_body, read_reply, send, ask, enabled,
  assist,
}

module _ {F : Type 0} ⦃d : Float F⦄ where
  -- The sum of the lines, from the first one on.
  abbrev pub sum_onto : F → List (Item F) → F
  sum_onto acc [] = acc
  sum_onto acc (it ∷ items) = sum_onto (d.add acc it.line_total) items

  -- An item says what it is or what it costs.
  abbrev pub IsTelling : Item F → Type 0
  IsTelling it = is_void it ≡ false

  -- An extract that an answer gave: it has items, all of which say something, and the computed total
  -- is the rounded sum of the lines.
  pub record IsAssisted (r : Extract F) : Type 0 where
    pub some_items : r.items ≢ []
    pub telling : All IsTelling r.items
    pub total : r.computed_items_total ≡ round_cents (sum_onto nought r.items)
    pub unlabeled : r.found_total ≡ false

  -- The items so far are telling, and the sum is theirs.
  abbrev pub IsTally : List (Item F) × F → Type 0
  IsTally found = All IsTelling found.0 × (found.1 ≡ sum_onto nought found.0)

  sum_onto-append :
      (acc : F) (items : List (Item F)) (it : Item F)
      → sum_onto acc (items ++ it ∷ []) ≡ d.add (sum_onto acc items) it.line_total
  sum_onto-append acc [] it = refl
  sum_onto-append acc (first ∷ items) it = sum_onto-append (d.add acc first.line_total) items it

  take_item-IsTally :
      (it : Item F) (found : List (Item F) × F) → IsTally found → IsTally (take_item it found)
  take_item-IsTally it (items, computed) h = elim (Bool-cases (is_void it)) [
    | inl void ↦ rw void h
    | inr telling ↦ rw telling (
      All-append IsTelling items (it ∷ []) h.0 (telling, tt),
      ap (λ x. d.add x it.line_total) h.1 ∙ sym (sum_onto-append nought items it),
    )
  ]

  collect-IsTally :
      (raws : List (AssistItem F)) (found : List (Item F) × F)
      → IsTally found
      → IsTally (collect raws found)
  unfolding collect
  collect-IsTally [] found h = h
  collect-IsTally (raw ∷ raws) found h =
      collect-IsTally raws (take_item (to_item raw) found) (take_item-IsTally (to_item raw) found h)

  -- What a call returns: the extract that it was given, or an assisted one.
  abbrev pub Fits : Extract F → Extract F → Type 0
  Fits hint r = (r ≡ hint) ⊎ IsAssisted r

  assisted-Fits :
      (out : AssistJson F) (hint : Extract F) (found : List (Item F) × F)
      → IsTally found
      → Fits hint (assisted out hint found)
  assisted-Fits out hint ([], computed) h = inl refl
  assisted-Fits out hint (it ∷ items, computed) h = inr record {
    some_items = ground arith;
    telling = h.0;
    total = ap round_cents h.1;
    unlabeled = refl;
  }

  read_answer-Fits :
      (hint : Extract F) (answer : Result (AssistJson F)) → Fits hint (read_answer hint answer).0
  read_answer-Fits hint (err e) = inl refl
  read_answer-Fits hint (ok out) =
      assisted-Fits out hint (collect out.items ([], nought))
        (collect-IsTally out.items ([], nought) (tt, refl))

  parse_assist-Fits :
      (decode : Text → Result (AssistJson F)) (content : Text) (hint : Extract F)
      → Fits hint (parse_assist decode content hint).0
  unfolding parse_assist
  parse_assist-Fits decode content hint = read_answer-Fits hint (decode (unfence content))

  found_total-incomplete : (r : Extract F) → r.found_total ≡ false → incomplete r ≡ true
  unfolding incomplete
  found_total-incomplete r h = elim (Bool-cases (is_empty r.items)) [
    | inl none_found ↦ rw none_found refl
    | inr some_found ↦ rw (some_found, h) refl
  ]

  module _ (net : Transport) (json : Json F) (verbs : Verbs) (elapsed : Int64) where
    first_choice-Fits :
        (hint : Extract F) (parsed : ChatResponse F)
        → Fits hint (first_choice net json verbs elapsed hint parsed).0
    first_choice-Fits hint parsed =
        elim parsed.contents
          as (λ contents.
            Fits hint
              (first_choice net json verbs elapsed hint
                (record parsed { contents = contents })).0) [
                  | [] ↦ inl refl
                  | content ∷ contents ↦ parse_assist-Fits json.answer content hint
                ]

    read_body-Fits :
        (hint : Extract F) (body : Text) → Fits hint (read_body net json verbs elapsed hint body).0
    read_body-Fits hint body = elim (Result-cases (json.response body)) [
      | inl (parsed, eq) ↦ rw (read_body, eq) (first_choice-Fits hint parsed)
      | inr (e, eq) ↦ rw (read_body, eq) (inl refl)
    ]

    read_reply-Fits :
        (hint : Extract F) (reply : Result Reply)
        → Fits hint (read_reply net json verbs elapsed hint reply).0
    read_reply-Fits hint (err e) = inl refl
    read_reply-Fits hint (ok reply) = elim (Result-cases reply.body) [
      | inl (body, eq) ↦ elim (Bool-cases (is_success reply.status)) [
        | inl fine ↦ rw (eq, fine) (read_body-Fits hint body)
        | inr bad ↦ rw (eq, bad) (inl refl)
      ]
      | inr (e, eq) ↦ rw eq (inl refl)
    ]

    send-Fits :
        (c : Client) (hint : Extract F) (payload : Text)
        → Fits hint (send net json verbs elapsed c hint payload).0
    send-Fits c hint payload =
        let url = c.base_url ++ codes "/chat/completions" in
        elim (Option-cases (net.new_request url)) [
          | inl eq ↦ rw (send, eq) (read_reply-Fits hint (net.exchange url payload))
          | inr (e, eq) ↦ rw (send, eq) (inl refl)
        ]

    ask-Fits :
        (c : Client) (ocr_text : Text) (hint : Extract F)
        → Fits hint (ask net json verbs elapsed c ocr_text hint).0
    ask-Fits c ocr_text hint =
        elim (Result-cases (json.marshal (chat_request net json verbs elapsed c ocr_text))) [
          | inl (payload, eq) ↦ rw (ask, eq) (send-Fits c hint payload)
          | inr (e, eq) ↦ rw (ask, eq) (inl refl)
        ]

    -- Whatever the network and the model answer, a call returns the extract that it was given, or one
    -- that has items, each of which has a description or a total, and whose computed total is the
    -- rounded sum of its lines.
    pub assist-Fits :
        (c : Option Client) (ocr_text : Text) (hint : Extract F)
        → Fits hint (assist net json verbs elapsed c ocr_text hint).0
    unfolding assist
    assist-Fits none ocr_text hint = inl refl
    assist-Fits (some c) ocr_text hint = elim (Bool-cases (enabled (some c))) [
      | inl on ↦ rw (enabled, on) (ask-Fits c ocr_text hint)
      | inr off ↦ rw (enabled, off) (inl refl)
    ]

    -- An extract that is incomplete, which is when the service asks the assistant, is incomplete after
    -- the call as well, whatever the network and the model answer.
    pub assist-incomplete :
        (c : Option Client) (ocr_text : Text) (hint : Extract F)
        → incomplete hint ≡ true
        → incomplete (assist net json verbs elapsed c ocr_text hint).0 ≡ true
    assist-incomplete c ocr_text hint h = elim (assist-Fits c ocr_text hint) [
      | inl same ↦ rw same h
      | inr a ↦ found_total-incomplete (assist net json verbs elapsed c ocr_text hint).0 a.unlabeled
    ]
