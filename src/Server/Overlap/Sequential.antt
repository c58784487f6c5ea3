-- ===== src/Server/Overlap/Sequential.antt =====
-- A request that is not interrupted, against the handlers of core/http.go.
use envisilab.Base.{◌≡◌, Option, none, some, nat_eq, list_eq, arith, Text}
use envisilab.Context.Interface.{ContextOps}
use envisilab.Endpoint.{create_entity}
use envisilab.Endpoint.Sync.{sync_handler, sync_client}
use envisilab.Endpoint.UserData.{with_user_data, act_on, standby_handler, beacon_handler}
use envisilab.Server.{
  Outside, Handler, sync, standby, beacon, data_channel, download, Arrival, Answer, Server, handle,
}
use envisilab.Server.Overlap.{
  Stage, arrived, finished, refused, start, draw_token, make_entity, enter, find, take, act, move,
}

module _ (o : Outside) {c : ContextOps} where
  abbrev pub next :
      Arrival o → Text → Handler → Option (Stage o × Server c) → Option (Stage o × Server c)
  next req token_id handler none = none
  next req token_id handler (some (stage, server)) = move o server req token_id handler stage

  -- A request from its arrival to its answer, with no other request in between.
  unfoldable pub alone : Server c → Arrival o → Text → Handler → Option (Stage o × Server c)
  alone server req token_id handler =
      next req token_id handler
        (next req token_id handler (move o server req token_id handler arrived))

  abbrev pub finish : Option (Answer o × Server c) → Option (Stage o × Server c)
  finish none = none
  finish (some (answered, server)) = some (finished answered, server)

  alone_sync :
      (server : Server c) (req : Arrival o) (token_id : Text)
      → alone server req token_id sync ≡ finish (handle o server req token_id sync)
  unfolding alone move start draw_token make_entity enter handle sync_handler sync_client
      create_entity refused
  alone_sync server req token_id = ground arith

  alone_beacon :
      (server : Server c) (req : Arrival o) (token_id : Text)
      → alone server req token_id beacon ≡ finish (handle o server req token_id beacon)
  unfolding alone move start find take act handle beacon_handler with_user_data act_on
  alone_beacon server req token_id = ground arith

  alone_standby :
      (server : Server c) (req : Arrival o) (token_id : Text)
      → alone server req token_id standby ≡ finish (handle o server req token_id standby)
  unfolding alone move start find take act handle standby_handler with_user_data act_on
  alone_standby server req token_id = ground arith

  alone_data :
      (server : Server c) (req : Arrival o) (token_id : Text)
      → alone server req token_id data_channel ≡ finish (handle o server req token_id data_channel)
  unfolding alone move start
  alone_data server req token_id = ground arith

  alone_download :
      (server : Server c) (req : Arrival o) (token_id : Text)
      → alone server req token_id download ≡ finish (handle o server req token_id download)
  unfolding alone move start
  alone_download server req token_id = ground arith

  -- A request that is not interrupted does what its handler does: from its arrival to its answer the
  -- stages give the answer, the entities, the heap and the context of the handler as a whole, and
  -- panic where that does.
  pub alone-handle :
      (server : Server c) (req : Arrival o) (token_id : Text) (handler : Handler)
      → alone server req token_id handler ≡ finish (handle o server req token_id handler)
  alone-handle server req token_id sync = alone_sync server req token_id
  alone-handle server req token_id standby = alone_standby server req token_id
  alone-handle server req token_id beacon = alone_beacon server req token_id
  alone-handle server req token_id data_channel = alone_data server req token_id
  alone-handle server req token_id download = alone_download server req token_id
