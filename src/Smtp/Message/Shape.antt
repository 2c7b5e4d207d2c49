-- ===== src/Smtp/Message/Shape.antt =====
-- The shape of a parsed content: its parts are numbered, and only a multipart content has parts.
use apitest.Base.{
  ℕ, zero, suc, ◌≡◌, refl, Bool, true, false, String, Option, none, some, List, [], ◌∷◌, has_prefix,
}
use apitest.Base.Dict.{Dict, lookup}
use apitest.Base.Int.{ℤ}
use apitest.Smtp.{Headers, Content, content, Parts, no_parts, part, Mime}
use apitest.Smtp.Message.{
  Parsed, limit, or_default, preprocess_headers, read_body, media_type, boundary_of, parse_parts,
  parts_of, new_content,
}
use apitest.Smtp.Message.Results.{Post, bind-Post, weaken-Post, Post-any}

abbrev pub IsMedia : Bool → String → Parts → Type 0
IsMedia true t ps = has_prefix t "multipart/" ≡ true
IsMedia false t ps = (has_prefix t "multipart/" ≡ false) × (ps ≡ no_parts)

unfoldable mutual
  pub IsShaped : Content → Type 0
  IsShaped (content h b t params m ps) = IsMedia m t ps × IsNumbered 0 ps

  -- The parts have the indices from `k` on.
  pub IsNumbered : ℕ → Parts → Type 0
  IsNumbered k no_parts = Unit {0}
  IsNumbered k (part i c ps) = (i ≡ k) × IsShaped c × IsNumbered (suc k) ps

module _ (mime : Mime) where
  parse_parts-IsNumbered :
      (build : Headers → String → Parsed Content) (i : ℕ) (raw : List (Headers × String))
      (e : Option String)
      → ((h : Headers) (b : String) → Post (Unit {0}) IsShaped (build h b))
      → Post (Unit {0}) (IsNumbered i) (parse_parts mime build i raw e)
  unfolding parse_parts IsShaped
  parse_parts-IsNumbered build i [] none shaped = tt
  parse_parts-IsNumbered build i [] (some e) shaped = tt
  parse_parts-IsNumbered build i ((h, b) ∷ raw) e shaped =
      bind-Post (Unit {0}) IsShaped (IsNumbered i) (build h b) _ (shaped h b) (λ c hc.
        bind-Post (Unit {0}) (IsNumbered (suc i)) (IsNumbered i)
          (parse_parts mime build (suc i) raw e) _
          (parse_parts-IsNumbered build (suc i) raw e shaped) (λ ps hps. (refl, hc, hps)))

  parts_of-shaped :
      (build : Headers → String → Parsed Content) (t : String) (multi : Bool) (params : Dict String)
      (b : String)
      → has_prefix t "multipart/" ≡ multi
      → ((h : Headers) (p : String) → Post (Unit {0}) IsShaped (build h p))
      → Post
          (Unit {0})
          (λ ps. IsMedia multi t ps × IsNumbered 0 ps)
          (parts_of mime build multi params b)
  unfolding parts_of IsShaped
  parts_of-shaped build t false params b e shaped = ((e, refl), tt)
  parts_of-shaped build t true params b e shaped =
      bind-Post (Unit {0}) (λ x. Unit {0}) (λ ps. IsMedia true t ps × IsNumbered 0 ps)
        (boundary_of mime (lookup "boundary" params)) _
        (Post-any (boundary_of mime (lookup "boundary" params)))
        (λ boundary _.
          let raw = mime.raw_parts boundary b in
          weaken-Post (Unit {0}) (IsNumbered 0) (λ ps. IsMedia true t ps × IsNumbered 0 ps)
            (parse_parts mime build 0 raw.raw raw.failure)
            (parse_parts-IsNumbered build 0 raw.raw raw.failure shaped) (λ ps h. (e, h)))

  -- The parts of a content that is parsed have the indices 0, 1 and so on, at every depth, and only
  -- a content whose type begins with multipart/ has parts.
  pub new_content-IsShaped :
      (fuel : ℕ) (max : ℤ) (h : Headers) (b : String)
      → Post (Unit {0}) IsShaped (new_content mime fuel max h b)
  unfolding new_content IsShaped
  new_content-IsShaped zero max h b = tt
  new_content-IsShaped (suc fuel) max h b =
      let hs = preprocess_headers mime h in
      let n = or_default max in
      bind-Post (Unit {0}) (λ d. Unit {0}) IsShaped
        (read_body mime (lookup "Content-Transfer-Encoding" hs) (limit n b)) _
        (Post-any (read_body mime (lookup "Content-Transfer-Encoding" hs) (limit n b)))
        (λ d _.
          bind-Post (Unit {0}) (λ t. Unit {0}) IsShaped (media_type mime (lookup "Content-Type" hs))
            _ (Post-any (media_type mime (lookup "Content-Type" hs)))
            (λ typ _.
              bind-Post (Unit {0})
                (λ ps. IsMedia (has_prefix typ.0 "multipart/") typ.0 ps × IsNumbered 0 ps) IsShaped
                (parts_of mime (new_content mime fuel n) (has_prefix typ.0 "multipart/") typ.1 d) _
                (parts_of-shaped (new_content mime fuel n) typ.0 (has_prefix typ.0 "multipart/")
                  typ.1 d refl (λ h' p. new_content-IsShaped fuel n h' p))
                (λ ps hps. hps)))
