-- ===== src/Oauth/Params.antt =====
-- The parameters of a flow come in pairs.
use mathlib.Core.List.{append_assoc, append-nil}
use apitest.Base.{
  Bool, true, false, String, List, [], ◌∷◌, ◌++◌, ok, err, ◌>>=◌, str_eq, if◌then◌else◌, ◌≡◌, refl,
  sym, ap, ◌∙◌, Bool-cases, inl, inr,
}
use apitest.Oauth.{
  Network, ClientConfig, panic, get_client_config, add_option, split_state, get_code_auth_url,
  get_redirect_url, get_code_auth_token, get_auth_token,
}

abbrev pub is_odd : List String → Bool
is_odd [] = false
is_odd (k ∷ []) = true
is_odd (k ∷ v ∷ params) = is_odd params

-- The value of the last pair with this name.
abbrev pub last_of : String → List String → String → String
last_of name [] before = before
last_of name (k ∷ []) before = before
last_of name (k ∷ v ∷ params) before = last_of name params (if str_eq k name then v else before)

-- The pairs with another name than `state`, in their order.
abbrev pub other_pairs : List String → List (String × String)
other_pairs [] = []
other_pairs (k ∷ []) = []
other_pairs (k ∷ v ∷ params) =
    let rest = other_pairs params in if str_eq k "state" then rest else (k, v) ∷ rest

split_state-other_pairs :
    (params : List String) (state : String) (opts : List (String × String))
    → split_state params (state, opts) ≡ (
        if is_odd params
        then err panic
        else ok (last_of "state" params state, opts ++ other_pairs params))
unfolding split_state add_option
split_state-other_pairs [] state opts = ap (λ os. ok (state, os)) (sym (append-nil opts))
split_state-other_pairs (k ∷ []) state opts = refl
split_state-other_pairs (k ∷ v ∷ params) state opts = elim (Bool-cases (str_eq k "state")) [
  | inl e ↦ rw e (split_state-other_pairs params v opts)
  | inr ne ↦ rw ne (
      split_state-other_pairs params state (opts ++ (k, v) ∷ [])
      ∙ ap (λ os. if is_odd params then err panic else ok (last_of "state" params state, os))
          (append_assoc opts ((k, v) ∷ []) (other_pairs params)))
]

after_split :
    {A : Type 0} (odd : Bool) (s : String × List (String × String))
    (next : String × List (String × String) → A)
    → ((if odd then err panic else ok s) >>= λ s'. ok (next s'))
      ≡ (if odd then err panic else ok (next s))
after_split true s next = refl
after_split false s next = refl

module _ (net : Network) (c : ClientConfig) where
  -- The URL of a flow has the value of the last parameter `state` as its state, and the others as
  -- its options, in their order; an odd number of parameters makes the program panic.
  pub get_code_auth_url-other_pairs :
      (params : List String)
      → get_code_auth_url net c params ≡ (
          if is_odd params
          then err panic
          else ok (
              net.auth_code_url
                (get_client_config c)
                (last_of "state" params "")
                (other_pairs params)))
  unfolding get_code_auth_url
  get_code_auth_url-other_pairs params = rw (split_state-other_pairs params "" []) (
      after_split (is_odd params) (last_of "state" params "", other_pairs params)
        (λ s. net.auth_code_url (get_client_config c) s.0 s.1))

  -- The flows with a redirect panic as well, before anything is sent.
  pub is_odd_panics :
      (params : List String)
      → is_odd params ≡ true
      → (get_code_auth_token net c params ≡ err panic) × (get_auth_token net c params ≡ err panic)
  unfolding get_code_auth_token get_auth_token get_redirect_url
  is_odd_panics params odd =
      let url : get_code_auth_url net c params ≡ err panic =
        get_code_auth_url-other_pairs params ∙ rw odd refl in
      (rw url refl, rw url refl)
