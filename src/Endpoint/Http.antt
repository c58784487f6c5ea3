-- ===== src/Endpoint/Http.antt =====
-- What the handlers of core/http.go write to an `http.ResponseWriter`.
use envisilab.Base.{ℕ, List, Bytes, Text}
use envisilab.Topology.{Group}

abbrev pub bad_request : ℕ
bad_request = 400

abbrev pub forbidden : ℕ
forbidden = 403

abbrev pub not_acceptable : ℕ
not_acceptable = 406

abbrev pub internal_server_error : ℕ
internal_server_error = 500

-- Nothing, a message of `messageError` with its status, the fields of a `SyncResponse`, or the text
-- of an activity.
pub data Response : Type 0 where
  silent : Response
  message_error : Text → ℕ → Response
  sync_response : Text → List Group → Response
  activity_text : Bytes → Response
