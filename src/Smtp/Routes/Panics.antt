-- ===== src/Smtp/Routes/Panics.antt =====
-- When a request makes the handler panic.
use apitest.Base.{
  ℕ, zero, suc, ◌<◌, ◌≡◌, ◌⊎◌, inl, inr, refl, Bool, true, false, String, Option, none, some, List,
  [], ◌∷◌, Outcome, ok, err, length, get_elem?, leb, str_eq, arith, if_elim, subst, sym,
  if◌then◌else◌,
}
use apitest.Base.Int.{ℤ, pos, negsuc}
use apitest.Json.Number.{parse_int}
use apitest.Smtp.{Content, ReceivedPart, ReceivedMessage, is_multipart, multiparts, parts_list}
use apitest.Smtp.Search.{Regexp}
use apitest.Smtp.Server.{Server, received_message, message_at}
use apitest.Smtp.Routes.{
  Answer, panicked, multipart_index, subroute, last_part, part_answer, with_part, part_at,
  message_answer, route_parts, route_gui, retrieve_message, with_message, multipart_answer,
  index_answer,
}

-- One of the texts is a negative number.
abbrev pub HasNegative : List String → Type 0
HasNegative [] = ⊥
HasNegative (s ∷ ss) = ((n : ℕ) × (parse_int s ≡ some (negsuc n))) ⊎ HasNegative ss

-- The answer is a panic only if `E`.
abbrev pub Sound : Type 0 → Answer → Type 0
Sound E a = a ≡ panicked → E

pub if-Sound :
    (E : Type 0) (b : Bool) (x y : Answer) → Sound E x → Sound E y → Sound E (if b then x else y)
if-Sound E true x y h k = h
if-Sound E false x y h k = k

get_elem?-some :
    {T : Type 0} → (xs : List T) (n : ℕ) → n < length xs → (x : T) × (get_elem? xs n ≡ some x)
get_elem?-some [] n h = absurd (omega arith)
get_elem?-some (x ∷ xs) zero h = (x, refl)
get_elem?-some (x ∷ xs) (suc n) h = get_elem?-some xs n (omega arith)

-- A list that is indexed below its length has an element there.
within :
    {T R : Type 0}
    → (P : R → Type 0) (xs : List T) (n : ℕ) (missing : R) (use_elem : Option T → R) → P missing
    → ((x : T) → P (use_elem (some x)))
    → P (if leb (length xs) n then missing else use_elem (get_elem? xs n))
within P xs n missing use_elem h k =
    if_elim P (leb (length xs) n) _ _ (λ over. h)
      (λ below.
        let (x, got) = get_elem?-some xs n (ground (arith, below)) in
        subst (λ o. P (use_elem o)) (sym got) (k x))

with_part-Sound :
    (E : Type 0) (c : Content) (s : String) (i : Option ℤ) (next : ReceivedPart → Answer)
    → ((n : ℕ) → i ≡ some (negsuc n) → E)
    → ((p : ReceivedPart) → Sound E (next p))
    → Sound E (with_part c s i next)
unfolding with_part part_at
with_part-Sound E c s none next h k = λ e. cc
with_part-Sound E c s (some (pos n)) next h k =
    within (Sound E) (parts_list (multiparts c)) n _ (λ o. part_at n o next) (λ e. cc) k
with_part-Sound E c s (some (negsuc n)) next h k = λ e. h n refl

retrieve_message-Sound :
    (E : Type 0) (s : Server) (text : String) (i : Option ℤ) (next : ReceivedMessage → Answer)
    → ((n : ℕ) → i ≡ some (negsuc n) → E)
    → ((m : ReceivedMessage) → Sound E (next m))
    → Sound E (retrieve_message s text i next)
unfolding retrieve_message received_message with_message message_at
retrieve_message-Sound E s text none next h k = λ e. cc
retrieve_message-Sound E s text (some (pos n)) next h k =
    within (λ r. Sound E (with_message r next)) s.received_messages n _ (message_at n) (λ e. cc) k
retrieve_message-Sound E s text (some (negsuc n)) next h k = λ e. h n refl

module _ (search : Outcome String (List Regexp)) where
  pub index_answer-Sound :
      {T : Type 0}
      → (E : Type 0) (content_of : T → Content) (show : List T → Answer) (ts : List T)
      → ((xs : List T) → Sound E (show xs))
      → Sound E (index_answer search content_of show ts search)
  unfolding index_answer
  index_answer-Sound E content_of show ts h =
      elim search as (λ r. Sound E (index_answer search content_of show ts r)) [
        | err p ↦ λ e. cc
        | ok rxs ↦ h _
      ]

  last_part-Sound : (E : Type 0) (c : Content) (p : String) → Sound E (last_part search c p)
  unfolding last_part multipart_answer
  last_part-Sound E c p =
      if-Sound E (str_eq p "body") _ _ (λ e. cc)
        (if-Sound E (str_eq p "multipart") _ _
          (if-Sound E (is_multipart c) _ _
            (index_answer-Sound E ReceivedPart.content multipart_index (parts_list (multiparts c))
              (λ xs e. cc))
            (λ e. cc))
          (λ e. cc))

  part_answer-Sound :
      (E : Type 0) (c : Content) (p s : String) (next : ReceivedPart → Answer)
      → ((n : ℕ) → parse_int s ≡ some (negsuc n) → E)
      → ((part : ReceivedPart) → Sound E (next part))
      → Sound E (part_answer search c p s next)
  unfolding part_answer
  part_answer-Sound E c p s next h k =
      if-Sound E (str_eq p "multipart") _ _
        (if-Sound E (is_multipart c) _ _ (with_part-Sound E c s (parse_int s) next h k) (λ e. cc))
        (λ e. cc)

  subroute-Sound : (c : Content) (ps : List String) → Sound (HasNegative ps) (subroute search c ps)
  unfolding subroute
  subroute-Sound c [] = λ e. cc
  subroute-Sound c (p ∷ []) = last_part-Sound (HasNegative (p ∷ [])) c p
  subroute-Sound c (p ∷ s ∷ []) =
      part_answer-Sound _ c p s _ (λ n e. inr (inl (n, e))) (λ part e. cc)
  subroute-Sound c (p ∷ s ∷ q ∷ rest) =
      part_answer-Sound _ c p s _ (λ n e. inr (inl (n, e)))
        (λ part e. inr (inr (subroute-Sound part.content (q ∷ rest) e)))

  message_answer-Sound :
      (m : ReceivedMessage) (ps : List String) → Sound (HasNegative ps) (message_answer search m ps)
  unfolding message_answer
  message_answer-Sound m [] = λ e. cc
  message_answer-Sound m (p ∷ []) =
      if-Sound (HasNegative (p ∷ [])) (str_eq p "raw") _ _ (λ e. cc)
        (subroute-Sound m.content (p ∷ []))
  message_answer-Sound m (p ∷ q ∷ rest) = subroute-Sound m.content (p ∷ q ∷ rest)

  route_gui-Sound : (s : Server) (ps : List String) → Sound (HasNegative ps) (route_gui search s ps)
  unfolding route_gui
  route_gui-Sound s [] = λ e. cc
  route_gui-Sound s (i ∷ []) =
      retrieve_message-Sound _ s i (parse_int i) _ (λ n e. inl (n, e)) (λ m e. cc)
  route_gui-Sound s (i ∷ p ∷ rest) =
      retrieve_message-Sound _ s i (parse_int i) _ (λ n e. inl (n, e)) (λ m e. cc)

  pub route_parts-panicked :
      (s : Server) (ps : List String) → route_parts search s ps ≡ panicked → HasNegative ps
  unfolding route_parts
  route_parts-panicked s [] = λ e. cc
  route_parts-panicked s (p ∷ rest) =
      if-Sound (HasNegative (p ∷ rest)) (str_eq p "gui") _ _ (λ e. inr (route_gui-Sound s rest e))
        (if-Sound (HasNegative (p ∷ rest)) (str_eq p "postmessage") _ _ (λ e. cc)
          (retrieve_message-Sound _ s p (parse_int p) _ (λ n e. inl (n, e))
            (λ m e. inr (message_answer-Sound m rest e))))
