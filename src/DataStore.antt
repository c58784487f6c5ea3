-- ===== src/DataStore.antt =====
-- core/datastore.go: the PostgreSQL store. The database is database/sql with the pq driver; `Sql`
-- holds the calls that are made on it. A time is its Unix seconds.

use envisilab.Base.{
  ℕ, Bool, Option, none, some, is_some, if◌then◌else◌, List, [], ◌∷◌, ◌++◌, Bytes, Text, Error,
  text,
}
use envisilab.Base.Int.{ℤ}
use envisilab.Location.{Location}

-- A row of v1.location_data as `Scan` finds it: lat, lng, alt and the timestamp, or the error of `Scan`.
pub data Row : Type 0 where
  row : ℕ → ℕ → ℕ → ℤ → Row
  scan_error : Text → Row

pub record Sql : Type 1 where
  pub Db : Type 0
  pub open_db : Text → Text → Error × Db
  pub ping : Db → Error
  pub insert_entity : Db → Bytes → Bytes → Text → Db
  pub prepare : Db → Error
  pub insert_location : Db → Bytes → Location → Error × Db
  -- The rows of a token, the error of `Query` and the error that ends the rows.
  pub select_locations : Db → Bytes → List Row × Error × Error

module _ (sql : Sql) where
  pub record DataStore : Type 0 where
    pub db_type : Text
    pub db_info : Text
    pub db : Option sql.Db

abbrev pub psql_info : Text
psql_info =
    text
      "host=localhost port=5432 user=data_producer password=envisilabdataproducer dbname=envisilab sslmode=disable"

-- The loop of `GetData`: the first row that cannot be scanned ends it.
unfoldable pub scan_rows : List Location → List Row → List Location × Error
scan_rows locations [] = (locations, none)
scan_rows locations (row lat lng alt ts ∷ rows) =
    let loc : Location = record { lat = lat; lng = lng; alt = alt; heading = 0; timestamp = ts } in
    scan_rows (locations ++ loc ∷ []) rows
scan_rows locations (scan_error e ∷ rows) = (locations, some e)

module _ {sql : Sql} where
  unfoldable pub make_data_store : DataStore sql
  make_data_store = record { db_type = text "postgres"; db_info = psql_info; db = none }

  -- The handle that `sql.Open` returns is a variable of the method; the struct's own stays as it is.
  unfoldable pub connect : DataStore sql → DataStore sql × Error
  connect ds =
      let (err, db) = sql.open_db (text "postgres") ds.db_info in
      if is_some err
      then (ds, err)
      else (let err' = sql.ping db in if is_some err' then (ds, err') else (ds, none))

  unfoldable pub is_connected : DataStore sql → Bool
  is_connected ds = is_some ds.db

  -- The result `none` of the methods below is the panic of a call on a `nil` handle. `Close` itself
  -- changes nothing in the struct.
  unfoldable pub disconnect : DataStore sql → Option (DataStore sql)
  disconnect ds = elim ds.db [ none ↦ none | some db ↦ some ds ]

  -- What `QueryRow` reports is never looked at.
  unfoldable pub new_entity : DataStore sql → Bytes → Bytes → Text → Option (DataStore sql × Error)
  new_entity ds client_uuid token_uuid user_agent = elim ds.db [
    | none ↦ none
    | some db ↦
        some
          (record ds { db = some (sql.insert_entity db client_uuid token_uuid user_agent) }, none)
  ]

  unfoldable pub location_data : DataStore sql → Bytes → Location → Option (DataStore sql × Error)
  location_data ds token_uuid loc = elim ds.db [
    | none ↦ none
    | some db ↦
        if is_some (sql.prepare db)
        then some (ds, sql.prepare db)
        else (let (err, db') = sql.insert_location db token_uuid loc in
            some (record ds { db = some db' }, err))
  ]

  unfoldable pub get_data : DataStore sql → Bytes → Option (List Location × Error)
  unfolding scan_rows
  get_data ds token_uuid = elim ds.db [
    | none ↦ none
    | some db ↦
        let (rows, err, rows_err) = sql.select_locations db token_uuid in
        if is_some err
        then some ([], err)
        else (let (locations, err') = scan_rows [] rows in
            if is_some err' then some (locations, err') else some (locations, rows_err))
  ]
