-- ===== src/Publisher/Laws.antt =====
-- The tokens of core/publisher.go.
use envisilab.Base.{
  ℕ, ◌≡◌, ◌≢◌, ◌⊎◌, ap, ◌↔◌, true, none, some, arith, List, [], ◌∷◌, refl, sym, ◌∙◌, All, nat_eq,
  list_eq, Bytes, Text, Error, length, Option-cases, inl, inr,
}
use envisilab.Redis.{Pool, IsPool, Command, key_set, ping, nil, bulk, setex, get, publish}
use envisilab.Uuid.{Uuid, IsUuid}
use envisilab.Message.Header.{nil_uuid}
use envisilab.Publisher.{
  connect, set_token, get_client_id, token_expired, publish_message, invalid_client_id,
  parse_client_id,
}

-- What the program asks of a publisher.
pub data Action : Type 0 where
  to_connect : Action
  to_set_token : Bytes → Bytes → ℕ → Action
  to_get_client_id to_expire : Bytes → Action
  to_publish : Text → Bytes → Action

-- A call that does not set the token. Tokens are UUIDs.
abbrev pub IsOther : Bytes → Action → Type 0
IsOther token (to_set_token token' client seconds) = (length token' ≡ 16) × (token' ≢ token)
IsOther token _ = Unit {0}

module _ (p : Pool) (u : Uuid) where
  unfoldable pub act : p.State → Action → p.State
  act s to_connect = (connect p s).1
  act s (to_set_token token client seconds) = (set_token p u s token client seconds).1
  act s (to_get_client_id token) = (get_client_id p u s token).2
  act s (to_expire token) = (token_expired p u s token).1
  act s (to_publish channel message) = (publish_message p s channel message).1

  unfoldable pub act_all : p.State → List Action → p.State
  act_all s [] = s
  act_all s (a ∷ actions) = act_all (act s a) actions

module _ (p : Pool) (i : IsPool p) (u : Uuid) (v : IsUuid u) where
  -- Where Redis answers, `GetClientID` returns the client of a token that is still stored.
  pub get_client_id_live :
      (s : p.State) (token client : Bytes)
      → length client ≡ 16
      → i.stored s (u.string token) ≡ some (u.string client)
      → (p.exec s (get (u.string token))).1 ≡ none
      → ((get_client_id p u s token).0 ≡ client) × ((get_client_id p u s token).1 ≡ none)
  unfolding get_client_id
  get_client_id_live s token client l there fine =
      let answer = p.exec s (get (u.string token)) in
      let reply : answer.0 ≡ bulk (u.string client) =
        rw there at (i.get_ok s answer.2 answer.0 (u.string token) (ground (arith, fine))) in
      (
        ground (arith, reply, fine, v.parse-string client l),
        ground (arith, reply, fine, v.parse-string client l),
      )

  abbrev command : Action → Command
  command to_connect = ping
  command (to_set_token token client seconds) = setex (u.string token) seconds (u.string client)
  command (to_get_client_id token) = get (u.string token)
  command (to_expire token) = get (u.string token)
  command (to_publish channel message) = publish channel message

  act-command : (s : p.State) (a : Action) → act p u s a ≡ (p.exec s (command a)).2
  unfolding act connect set_token get_client_id token_expired publish_message
  act-command s to_connect = refl
  act-command s (to_set_token token client seconds) = refl
  act-command s (to_get_client_id token) = ground arith
  act-command s (to_expire token) = refl
  act-command s (to_publish channel message) = refl

  -- The texts of two tokens differ.
  other_key :
      (a : Action) (token : Bytes)
      → length token ≡ 16
      → IsOther token a
      → key_set (command a) ≢ some (u.string token)
  other_key to_connect token l other e = absurd (ground (arith, e))
  other_key (to_set_token token' client seconds) token l (l', ne) e =
      let same : u.string token' ≡ u.string token = ground (arith, e) in
      ne (
        ap (λ (r : Bytes × Error). r.0)
          (sym (v.parse-string token' l') ∙ ap u.parse same ∙ v.parse-string token l))
  other_key (to_get_client_id token') token l other e = absurd (ground (arith, e))
  other_key (to_expire token') token l other e = absurd (ground (arith, e))
  other_key (to_publish channel message) token l other e = absurd (ground (arith, e))

  -- The client of the token is stored, or nobody's is.
  abbrev IsOwn : Bytes → Bytes → p.State → Type 0
  IsOwn token client s =
      (i.stored s (u.string token) ≡ some (u.string client)) ⊎ (i.stored s (u.string token) ≡ none)

  act-IsOwn :
      (s : p.State) (a : Action) (token client : Bytes)
      → length token ≡ 16
      → IsOther token a
      → IsOwn token client s
      → IsOwn token client (act p u s a)
  act-IsOwn s a token client l other own =
      let done = p.exec s (command a) in
      let still =
        i.kept s done.2 (command a) done.0 done.1 (u.string token) refl
          (other_key a token l other) in
      rw (act-command s a) (elim still [
        | inr gone ↦ inr gone
        | inl same ↦ elim own [ inl there ↦ inl (same ∙ there) | inr gone ↦ inr (same ∙ gone) ]
      ])

  act_all-IsOwn :
      (actions : List Action) (s : p.State) (token client : Bytes)
      → length token ≡ 16
      → All (IsOther token) actions
      → IsOwn token client s
      → IsOwn token client (act_all p u s actions)
  unfolding act_all
  act_all-IsOwn [] s token client l others own = own
  act_all-IsOwn (a ∷ actions) s token client l others own =
      act_all-IsOwn actions (act p u s a) token client l others.1
        (act-IsOwn s a token client l others.0 own)

  -- Where Redis answers, `GetClientID` returns no client of a token that is not stored.
  get_client_id_gone :
      (s : p.State) (token : Bytes)
      → i.stored s (u.string token) ≡ none
      → (p.exec s (get (u.string token))).1 ≡ none
      → ((get_client_id p u s token).0 ≡ nil_uuid)
        × ((get_client_id p u s token).1 ≡ invalid_client_id)
  unfolding get_client_id parse_client_id
  get_client_id_gone s token gone fine =
      let answer = p.exec s (get (u.string token)) in
      let reply : answer.0 ≡ nil =
        rw gone at (i.get_ok s answer.2 answer.0 (u.string token) (ground (arith, fine))) in
      (ground (arith, reply, fine), ground (arith, reply, fine))

  -- A token that was set with a client is that client's until it expires, and then nobody's: whatever
  -- the publisher is asked after an accepted `SetToken`, but to set that very token again, and whether
  -- Redis accepts it or not, either Redis still has that client for the token, and `GetClientID` returns
  -- it without an error, or Redis has nothing for it, and `GetClientID` returns the nil UUID with the
  -- error of an invalid client. Redis answers the request of `GetClientID`.
  pub get_client_id-set_token :
      (s s1 : p.State) (token client : Bytes) (seconds : ℕ) (actions : List Action)
      → length token ≡ 16
      → length client ≡ 16
      → set_token p u s token client seconds ≡ (none, s1)
      → All (IsOther token) actions
      → (p.exec (act_all p u s1 actions) (get (u.string token))).1 ≡ none
      → let (cid, err, s2) = get_client_id p u (act_all p u s1 actions) token in
        let there = i.stored (act_all p u s1 actions) (u.string token) in
        ((there ≡ some (u.string client)) × ((cid ≡ client) × (err ≡ none)))
        ⊎ ((there ≡ none) × ((cid ≡ nil_uuid) × (err ≡ invalid_client_id)))
  unfolding set_token
  get_client_id-set_token s s1 token client seconds actions l l' e others fine =
      let answer = p.exec s (setex (u.string token) seconds (u.string client)) in
      let there =
        i.setex_ok s s1 answer.0 (u.string token) (u.string client) seconds (ground (arith, e)) in
      let s' = act_all p u s1 actions in
      elim (act_all-IsOwn actions s1 token client l others (inl there)) [
        | inl own ↦ inl (own, get_client_id_live s' token client l' own fine)
        | inr gone ↦ inr (gone, get_client_id_gone s' token gone fine)
      ]

  -- A token is expired for `TokenExpired` where Redis has no value for it, and also wherever Redis
  -- fails, whatever is stored.
  pub token_expired_iff :
      (s : p.State) (token : Bytes)
      → ((token_expired p u s token).0 ≡ true)
        ↔ (((p.exec s (get (u.string token))).1 ≢ none) ⊎ (i.stored s (u.string token) ≡ none))
  unfolding token_expired
  token_expired_iff s token =
      let answer = p.exec s (get (u.string token)) in
      elim (Option-cases answer.1) [
        | inl fine ↦
            let reply = i.get_ok s answer.2 answer.0 (u.string token) (ground (arith, fine)) in
            (
              λ h. inr (ground (arith, reply)),
              elim [ inl refused ↦ absurd (refused fine) | inr gone ↦ ground (arith, reply, gone) ],
            )
        | inr (e, bad) ↦
            let reply =
              i.failed s answer.2 (get (u.string token)) answer.0 e (ground (arith, bad)) in
            (λ h. inl (λ fine. cc (fine, bad)), λ h. ground (arith, reply))
      ]
