-- ===== src/Server/Handlers.antt =====
-- Each handler of core/http.go, on an endpoint that is ready: it ends without a panic, and the endpoint
-- stays ready.
mod Sync
mod UserData
mod Download
pub use Sync.{sync_handler-IsStep}
pub use UserData.{
  standby_handler-IsStep, beacon_handler-IsStep, handle_user_data_present, get_entity_present,
  IsSafe,
}
pub use Download.{download_handler-IsStep}
