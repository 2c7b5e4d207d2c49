-- ===== src/Smtp/Routes/Addresses.antt =====
-- Every part of a message has an address.
use apitest.Base.{
  ℕ, zero, suc, ◌<◌, ◌≡◌, ◌∙◌, true, false, String, some, List, [], ◌∷◌, ◌++◌, Outcome, length,
  get_elem?, leb, str_eq, arith,
}
use apitest.Base.Int.{pos}
use apitest.Json.Number.{parse_int}
use apitest.Smtp.{Content, ReceivedPart, ReceivedMessage, is_multipart, multiparts, parts_list}
use apitest.Smtp.Search.{Regexp}
use apitest.Smtp.Server.{Server, found, received_message}
use apitest.Smtp.Routes.{
  Answer, content_body, multipart_meta, subroute, last_part, part_answer, with_part, part_at,
  message_answer, route_parts, retrieve_message, with_message,
}

-- The part of `c` with the number `i`.
pub record HasPart (c : Content) (i : ℕ) (p : ReceivedPart) : Type 0 where
  pub multi : is_multipart c ≡ true
  pub at : get_elem? (parts_list (multiparts c)) i ≡ some p

-- The part that the numbers lead to, from the parts of a content down.
abbrev pub Leads : Content → List ℕ → ReceivedPart → Type 0
Leads c [] q = ⊥
Leads c (i ∷ []) q = HasPart c i q
Leads c (i ∷ j ∷ is) q = (p : ReceivedPart) × HasPart c i p × Leads p.content (j ∷ is) q

-- The texts that stand for the numbers.
abbrev pub Names : List String → List ℕ → Type 0
Names [] [] = Unit {0}
Names (s ∷ ss) (i ∷ is) = (parse_int s ≡ some (pos i)) × Names ss is
Names _ _ = ⊥

-- multipart/s/multipart/t and so on
abbrev pub address : List String → List String
address [] = []
address (s ∷ ss) = "multipart" ∷ s ∷ address ss

get_elem?-lt :
    (xs : List ReceivedPart) (n : ℕ) (p : ReceivedPart) → get_elem? xs n ≡ some p → n < length xs
get_elem?-lt [] n p h = cc
get_elem?-lt (x ∷ xs) zero p h = omega arith
get_elem?-lt (x ∷ xs) (suc n) p h = omega (arith, get_elem?-lt xs n p h)

module _ (search : Outcome String (List Regexp)) where
  part_answer_lem :
      (c : Content) (s : String) (i : ℕ) (p : ReceivedPart) (next : ReceivedPart → Answer)
      → HasPart c i p
      → parse_int s ≡ some (pos i)
      → part_answer search c "multipart" s next ≡ next p
  unfolding part_answer with_part part_at
  part_answer_lem c s i p next h e =
      let within : leb (length (parts_list (multiparts c))) i ≡ false =
        ground (arith, get_elem?-lt (parts_list (multiparts c)) i p h.at) in
      rw (h.multi, e, with_part, within, h.at)

  subroute-Leads :
      (c : Content) (ss : List String) (is : List ℕ) (q : ReceivedPart)
      → Names ss is
      → Leads c is q
      → (subroute search c (address ss) ≡ multipart_meta q)
        × (subroute search c (address ss ++ "body" ∷ []) ≡ content_body q.content)
  unfolding subroute last_part
  subroute-Leads c [] [] q n l = absurd l
  subroute-Leads c [] (i ∷ is) q n l = elim n [ ]
  subroute-Leads c (s ∷ []) [] q n l = elim n [ ]
  subroute-Leads c (s ∷ t ∷ ss) [] q n l = elim n [ ]
  subroute-Leads c (s ∷ t ∷ ss) (i ∷ []) q n l = elim n.1 [ ]
  subroute-Leads c (s ∷ []) (i ∷ j ∷ is) q n l = elim n.1 [ ]
  subroute-Leads c (s ∷ []) (i ∷ []) q n l = (
    part_answer_lem c s i q multipart_meta l n.0,
    part_answer_lem c s i q (λ part. subroute search part.content ("body" ∷ [])) l n.0,
  )
  subroute-Leads c (s ∷ t ∷ ss) (i ∷ j ∷ is) q n (p, h, l) =
      let (meta, text) = subroute-Leads p.content (t ∷ ss) (j ∷ is) q n.1 l in
      (
        part_answer_lem c s i p (λ part. subroute search part.content (address (t ∷ ss))) h n.0
            ∙ meta,
        part_answer_lem c s i p
              (λ part. subroute search part.content (address (t ∷ ss) ++ "body" ∷ [])) h n.0
            ∙ text,
      )

  -- Under the number of a message, followed by multipart and a number for each level, the server
  -- answers with the part that the numbers lead to, and with body behind that with the part's
  -- content.
  pub route_parts-Leads :
      (s : Server) (text : String) (n : ℕ) (m : ReceivedMessage) (ss : List String) (is : List ℕ)
      (q : ReceivedPart)
      → parse_int text ≡ some (pos n)
      → str_eq text "gui" ≡ false
      → str_eq text "postmessage" ≡ false
      → received_message s (pos n) ≡ found m
      → Names ss is
      → Leads m.content is q
      → (route_parts search s (text ∷ address ss) ≡ multipart_meta q)
        × (route_parts search s (text ∷ address ss ++ "body" ∷ []) ≡ content_body q.content)
  unfolding route_parts retrieve_message with_message message_answer
  route_parts-Leads s text n m [] [] q e g p f names l = absurd l
  route_parts-Leads s text n m [] (i ∷ is) q e g p f names l = elim names [ ]
  route_parts-Leads s text n m (t ∷ ss) [] q e g p f names l = elim names [ ]
  route_parts-Leads s text n m (t ∷ ss) (i ∷ is) q e g p f names l =
      let (meta, content) = subroute-Leads m.content (t ∷ ss) (i ∷ is) q names l in
      (rw (g, p, e, retrieve_message, f, meta), rw (g, p, e, retrieve_message, f, content))
