-- ===== src/Publisher.antt =====
-- core/publisher.go: the tokens of the clients, and published messages, in Redis.
pub mod Laws
use envisilab.Base.{
  ℕ, Bool, true, false, Option, none, some, is_some, if◌then◌else◌, Bytes, Text, Error, text,
}
use envisilab.Redis.{Pool, Reply, nil, bulk, ping, setex, get, publish}
use envisilab.Redis
use envisilab.Uuid.{Uuid}
use envisilab.Message.Header.{nil_uuid}

abbrev pub invalid_client_id : Error
invalid_client_id = some (text "Invalid client id - not a valid type")

-- The type assertion and `uuid.Parse` on what was stored.
unfoldable pub parse_client_id : Uuid → Reply → Bytes × Error
parse_client_id u (bulk str_val) =
    let (client_uuid, err) = u.parse str_val in
    if is_some err then (nil_uuid, err) else (client_uuid, none)
parse_client_id u nil = (nil_uuid, invalid_client_id)
parse_client_id u Redis.other = (nil_uuid, invalid_client_id)

module _ (p : Pool) where
  unfoldable pub connect : p.State → Error × p.State
  connect s = let (r, err, s') = p.exec s ping in (err, s')

  module _ (u : Uuid) where
    unfoldable pub set_token : p.State → Bytes → Bytes → ℕ → Error × p.State
    set_token s token_id client_id timeout_sec =
        let (r, err, s') = p.exec s (setex (u.string token_id) timeout_sec (u.string client_id)) in
        (err, s')

    unfoldable pub get_client_id : p.State → Bytes → Bytes × Error × p.State
    unfolding parse_client_id
    get_client_id s token_id =
        let (val, err, s') = p.exec s (get (u.string token_id)) in
        if is_some err
        then (nil_uuid, err, s')
        else (let (cid, err') = parse_client_id u val in (cid, err', s'))

    -- The error is dropped: only the reply is looked at.
    unfoldable pub token_expired : p.State → Bytes → Bool × p.State
    token_expired s token_id =
        let (val, err, s') = p.exec s (get (u.string token_id)) in
        (elim val [ nil ↦ true | _ ↦ false ], s')

  unfoldable pub publish_message : p.State → Text → Bytes → Error × p.State
  publish_message s channel message =
      let (r, err, s') = p.exec s (publish channel message) in (err, s')
