-- ===== src/Tests/Tokens.antt =====
-- core/publisher.go over a Redis server in memory.
use envisilab.Base.{
  ℕ, ◌≡◌, ◌≢◌, ◌⊎◌, refl, none, some, Bytes, All, List, [], ◌∷◌, ap, arith, replicate, list_eq,
  nat_eq,
}
use envisilab.Redis.{get}
use envisilab.Message.Header.{nil_uuid}
use envisilab.Publisher.{
  set_token, get_client_id, parse_client_id, token_expired, invalid_client_id,
}
use envisilab.Publisher.Laws.{
  Action, to_set_token, to_get_client_id, to_expire, act, act_all, IsOther, get_client_id-set_token,
}
use envisilab.Tests.Instances.{Redis, redis, redis-IsPool, no_redis, plain, plain-IsUuid, exec}

abbrev token : Bytes
token = replicate 16 3

abbrev client : Bytes
client = replicate 16 5

abbrev with_token : Redis
with_token = (set_token redis plain no_redis token client 30).1

set_token_accepts : set_token redis plain no_redis token client 30 ≡ (none, with_token)
unfolding set_token
set_token_accepts = refl

get_client_id_answers : get_client_id redis plain with_token token ≡ (client, none, with_token)
unfolding get_client_id set_token parse_client_id
get_client_id_answers = refl

abbrev other_token : Bytes
other_token = replicate 16 9

abbrev other_client : Bytes
other_client = replicate 16 6

-- Another client takes a token, and asks for its own and for this one.
abbrev actions : List Action
actions =
    to_set_token other_token other_client 5 ∷ to_get_client_id other_token ∷ to_expire token ∷ []

tokens_differ : other_token ≢ token
tokens_differ e =
    absurd (omega (arith, ap {B = ℕ} (λ (bs : Bytes). elim bs [ [] ↦ 0 | b ∷ rest ↦ b ]) e))

actions-IsOther : All (IsOther token) actions
actions-IsOther = ((refl, tokens_differ), (tt, (tt, tt)))

get_accepts : (exec (act_all redis plain with_token actions) (get token)).1 ≡ none
unfolding act_all act set_token get_client_id token_expired parse_client_id
get_accepts = refl

get_client_id-set_token_example :
    let (cid, err, s2) = get_client_id redis plain (act_all redis plain with_token actions) token in
    let there = redis-IsPool.stored (act_all redis plain with_token actions) token in
    ((there ≡ some client) × ((cid ≡ client) × (err ≡ none)))
    ⊎ ((there ≡ none) × ((cid ≡ nil_uuid) × (err ≡ invalid_client_id)))
get_client_id-set_token_example =
    get_client_id-set_token redis redis-IsPool plain plain-IsUuid no_redis with_token token client
      30 actions refl refl set_token_accepts actions-IsOther get_accepts
