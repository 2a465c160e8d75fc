-- ===== src/ActionRequest/Caching.antt =====
-- The fields of a request that are computed at their first use.
use pxp_agent.Base.{String, false, ◌≡◌, refl, inl, inr, Bool-cases, is_blank}
use pxp_agent.Libraries.{Libraries}
use pxp_agent.ActionRequest.{ActionRequest, ParsedChunks, params, params_txt, pretty_label}

module _ ⦃L : Libraries⦄ where
  open L use {Json, is_empty, entry, to_string}

  -- The request with other chunks.
  abbrev pub with_chunks : ParsedChunks → ActionRequest → ActionRequest
  with_chunks k r = record r { parsed_chunks = k }

  params_lem :
      (r : ActionRequest) (k : ParsedChunks)
      → is_empty (params r).0 ≡ false
      → (params (with_chunks k (params r).1)).0 ≡ (params r).0
  unfolding params
  params_lem r k e = rw e refl

  params_txt_lem :
      (r : ActionRequest) (k : ParsedChunks)
      → is_blank (params_txt r).0 ≡ false
      → (params_txt (with_chunks k (params_txt r).1)).0 ≡ (params_txt r).0
  unfolding params_txt
  params_txt_lem r k = elim (Bool-cases (is_blank r.params_txt_cache)) [
    | inl e ↦ rw e (λ f. rw f refl)
    | inr e ↦ rw (e, e) (λ f. refl)
  ]

  pretty_label_lem :
      (r : ActionRequest) (t a : String)
      → is_blank (pretty_label r).0 ≡ false
      → (pretty_label (record (pretty_label r).1 { transaction_id = t; action = a })).0
        ≡ (pretty_label r).0
  unfolding pretty_label
  pretty_label_lem r t a = elim (Bool-cases (is_blank r.pretty_label_cache)) [
    | inl e ↦ rw e (λ f. rw f refl)
    | inr e ↦ rw (e, e) (λ f. refl)
  ]

  pub accessors-stable :
      (r : ActionRequest) (k : ParsedChunks) (t a : String)
      → is_empty (params r).0 ≡ false
      → is_blank (params_txt r).0 ≡ false
      → is_blank (pretty_label r).0 ≡ false
      → ((params (with_chunks k (params r).1)).0 ≡ (params r).0)
        × ((params_txt (with_chunks k (params_txt r).1)).0 ≡ (params_txt r).0)
        × ((pretty_label (record (pretty_label r).1 { transaction_id = t; action = a })).0
            ≡ (pretty_label r).0)
  accessors-stable r k t a p q l =
      (params_lem r k p, params_txt_lem r k q, pretty_label_lem r t a l)
