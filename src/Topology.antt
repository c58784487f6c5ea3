-- ===== src/Topology.antt =====
-- core/topology.go: the tokens, the two subscribers (one for cells, one for groups), and broadcasts.
-- Floats are bit patterns; their product and quotient are the machine's.

pub mod Exclusive
pub mod Broadcasts
pub mod Fanout
use envisilab.Base.{
  ℕ, Bool, true, false, Option, none, some, is_some, if◌then◌else◌, List, [], ◌∷◌, Bytes, Text,
  Error, text,
}
use envisilab.Base.Decimal.{format_uint}
use envisilab.Redis.{Pool, PubSub}
use envisilab.Uuid.{Uuid}
use envisilab.Message.Header.{nil_uuid}
use envisilab.Publisher.{set_token, publish_message, token_expired}
use envisilab.Publisher
use envisilab.Subscriber.{Conn, Subscriber, make_subscriber, unsubscribe, subscribe}
use envisilab.Subscriber

-- `float64` arithmetic, and the constants 2π and earthCircumferenceMeters.
pub record Float64 : Type 0 where
  pub mul : ℕ → ℕ → ℕ
  pub div : ℕ → ℕ → ℕ
  pub two : ℕ
  pub two_pi : ℕ
  pub earth_circumference_meters : ℕ

unfoldable pub earth_meters_to_radians : Float64 → ℕ → ℕ
earth_meters_to_radians f m = f.mul f.two_pi (f.div m f.earth_circumference_meters)

unfoldable pub to_height : Float64 → ℕ → ℕ
unfolding earth_meters_to_radians
to_height f m = let r = earth_meters_to_radians f m in f.div (f.mul r r) f.two

pub record Config : Type 0 where
  pub search_radius_meters : ℕ
  pub topology_level : ℕ
  pub height : ℕ
  pub redis_url : Text
  pub token_timeout_sec : ℕ

unfoldable pub make_config : Float64 → ℕ → ℕ → Config
make_config f search_radius_meters topology_level = record {
  search_radius_meters = search_radius_meters;
  topology_level = topology_level;
  height = to_height f search_radius_meters;
  redis_url = text "redis://localhost";
  token_timeout_sec = 30;
}

pub record Group : Type 0 where
  pub uuid : Text
  pub name : Text

pub record Token : Type 0 where
  pub id : Bytes
  pub timeout_sec : ℕ

-- `createToken`. `random` is what `uuid.NewRandom` returns; a token that fails is the zero value.
abbrev pub new_token : ℕ → Bytes × Error → Token × Error
new_token timeout_sec (uid, err) =
    if is_some err
    then (record { id = nil_uuid; timeout_sec = 0 }, err)
    else (record { id = uid; timeout_sec = timeout_sec }, none)

-- The message to the entity's groups, each error dropped.
unfoldable pub publish_groups : (p : Pool) → p.State → List Group → Bytes → p.State
publish_groups p s [] message = s
publish_groups p s (group ∷ groups) message =
    let (ignored, s') = publish_message p s group.uuid message in publish_groups p s' groups message

module _ (p : Pool) (ps : PubSub) where
  -- The publisher is the state of its pool.
  pub record Topology : Type 0 where
    pub config : Config
    pub publisher : p.State
    pub cell_subscriber : Subscriber ps
    pub group_subscriber : Subscriber ps

module _ {p : Pool} {ps : PubSub} where
  unfoldable pub make_topology : Config → p.State → ps.State → ps.State → Topology p ps
  make_topology c publisher cells groups = record {
    config = c;
    publisher = publisher;
    cell_subscriber = make_subscriber c.redis_url cells;
    group_subscriber = make_subscriber c.redis_url groups;
  }

  -- The first failure ends the program (`log.Fatal`): the result is then `none`.
  unfoldable pub connect : Topology p ps → Option (Topology p ps)
  connect t =
      let (err1, publisher) = Publisher.connect p t.publisher in
      let (cells, err2) = Subscriber.connect t.cell_subscriber in
      let (groups, err3) = Subscriber.connect t.group_subscriber in
      if is_some err1
      then none
      else if is_some err2
      then none
      else if is_some err3
      then none
      else some
          (record t { publisher = publisher; cell_subscriber = cells; group_subscriber = groups })

  module _ (u : Uuid) where
    unfoldable pub create_token :
        Topology p ps → Bytes × Error → Bytes → Bytes × Error × Topology p ps
    create_token t random client_id =
        let (token, err) = new_token t.config.token_timeout_sec random in
        if is_some err
        then (token.id, err, t)
        else (let (err', s') =
              set_token p u t.publisher token.id client_id t.config.token_timeout_sec in
            (token.id, err', record t { publisher = s' }))

    unfoldable pub get_client_id : Topology p ps → Bytes → Bytes × Error × Topology p ps
    get_client_id t token_id =
        let (cid, err, s') = Publisher.get_client_id p u t.publisher token_id in
        (cid, err, record t { publisher = s' })

    unfoldable pub entity_expired : Topology p ps → Bytes → Bool × Topology p ps
    entity_expired t token_id =
        let (expired, s') = token_expired p u t.publisher token_id in
        (expired, record t { publisher = s' })

  -- Any groups first, whose error is dropped.
  unfoldable pub subscribe_to_cell :
      (List Text → List Text) → Topology p ps → Conn → List ℕ → Topology p ps × Error
  subscribe_to_cell order t conn cell_group =
      let (groups, ignored) = unsubscribe order t.group_subscriber conn in
      let (cells, err) = Subscriber.subscribe_to_cell order t.cell_subscriber conn cell_group in
      (record t { cell_subscriber = cells; group_subscriber = groups }, err)

  -- Any cells first, whose error is dropped.
  unfoldable pub subscribe_to_group :
      (List Text → List Text) → Topology p ps → Conn → Text → Bool → Topology p ps × Error
  subscribe_to_group order t conn group_id unsub =
      let (cells, ignored) = unsubscribe order t.cell_subscriber conn in
      let (groups, err) = subscribe order t.group_subscriber conn group_id unsub in
      (record t { cell_subscriber = cells; group_subscriber = groups }, err)

  unfoldable pub unsubscribe_from_groups :
      (List Text → List Text) → Topology p ps → Conn → Topology p ps × Error
  unsubscribe_from_groups order t conn =
      let (groups, err) = unsubscribe order t.group_subscriber conn in
      (record t { group_subscriber = groups }, err)

  unfoldable pub unsubscribe_all :
      (List Text → List Text) → Topology p ps → Conn → Topology p ps × Error
  unsubscribe_all order t conn =
      let (cells, ignored) = unsubscribe order t.cell_subscriber conn in
      let (groups, ignored') = unsubscribe order t.group_subscriber conn in
      (record t { cell_subscriber = cells; group_subscriber = groups }, none)

  -- The entity comes in as the id of its cell and its groups.
  unfoldable pub broadcast : Topology p ps → ℕ → List Group → Bytes → Topology p ps × Error
  unfolding publish_groups
  broadcast t cell_id groups message =
      let (err, s') = publish_message p t.publisher (format_uint cell_id) message in
      if is_some err
      then (record t { publisher = s' }, err)
      else (record t { publisher = publish_groups p s' groups message }, none)
