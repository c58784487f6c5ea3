-- ===== src/Endpoint/Download/Invalid.antt =====
-- The token that `DownloadHandler` of core/http.go cannot parse.
use envisilab.Base.{
  ◌≡◌, none, some, list_eq, nat_eq, eq_iff, [], ◌∷◌, arith, Bytes, Text, Error, text,
}
use envisilab.Uuid.{Uuid}
use envisilab.Context.{Activity}
use envisilab.Context.Interface.{ContextOps}
use envisilab.Endpoint.{Endpoint}
use envisilab.Endpoint.Http.{message_error, activity_text, bad_request}
use envisilab.Endpoint.Download.{download_handler}

module _ (u : Uuid) (marshal : Activity → Bytes × Error) where
  -- A token that is no UUID does not end the handler: with whatever `uuid.Parse` returned beside its
  -- error, it goes on to ask for the data, and writes these behind the message if it gets them.
  pub download_handler_invalid :
      {c : ContextOps} (ep : Endpoint c) (token : Text) (parsed js : Bytes) (e : Text)
      (activity : Activity) (ctx' : c.State)
      → u.parse token ≡ (parsed, some e)
      → c.get_data ep.ctx parsed ≡ some ((activity, none), ctx')
      → marshal activity ≡ (js, none)
      → download_handler u marshal ep (text "GET") token
        ≡ some (message_error e bad_request ∷ activity_text js ∷ [], record ep { ctx = ctx' })
  unfolding download_handler
  download_handler_invalid ep token parsed js e activity ctx' bad there fine =
      ground (arith, bad, there, fine, eq_iff (text "GET") (text "GET"))
