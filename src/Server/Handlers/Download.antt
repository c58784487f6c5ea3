-- ===== src/Server/Handlers/Download.antt =====
-- `DownloadHandler` of core/http.go on an endpoint that is ready.
use envisilab.Base.{◌≡◌, ◌≢◌, none, some, present, nat_eq, list_eq, List, arith, Bytes, Text, Error}
use envisilab.Uuid.{Uuid}
use envisilab.Heap.{Heap}
use envisilab.Heap.Kept.{Keeps-refl}
use envisilab.Context.{Activity}
use envisilab.Context.Interface.{ContextOps, IsSound}
use envisilab.Endpoint.{Endpoint}
use envisilab.Endpoint.Http.{Response}
use envisilab.Endpoint.Download.{download_handler, send_activity}
use envisilab.Server.Step.{IsReady, IsStep, IsStep-same}

module _ (u : Uuid) {c : ContextOps} (safe : IsSound c) where
  download_handler_present :
      (marshal : Activity → Bytes × Error) (ep : Endpoint c) (method token : Text)
      → download_handler u marshal ep method token ≢ none
  unfolding download_handler send_activity
  download_handler_present marshal ep method token gone =
      let (r, s', done) = safe.get_data_ok ep.ctx (u.parse token).0 in ground (arith, done)

  entities-download_handler :
      (marshal : Activity → Bytes × Error) (ep ep' : Endpoint c) (method token : Text)
      (rs : List Response)
      → download_handler u marshal ep method token ≡ some (rs, ep')
      → ep'.entities ≡ ep.entities
  unfolding download_handler send_activity
  entities-download_handler marshal ep ep' method token rs h = ground arith

  pub download_handler-IsStep :
      (marshal : Activity → Bytes × Error) (ep : Endpoint c) (heap : Heap) (method token : Text)
      → IsReady u ep heap
      → (rs : List Response) × (ep' : Endpoint c) × (download_handler u marshal ep method token
          ≡ some (rs, ep'))
        × IsStep u ep heap ep' heap
  download_handler-IsStep marshal ep heap method token ready =
      let ((rs, ep'), done) =
        present (download_handler u marshal ep method token)
          (download_handler_present marshal ep method token) in
      let same = entities-download_handler marshal ep ep' method token rs done in
      (rs, ep', done, IsStep-same u ep ep' heap heap same (Keeps-refl heap) ready)
