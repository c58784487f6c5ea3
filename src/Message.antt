-- ===== src/Message.antt =====
-- core/message.go: the header, the four messages, and how each is written to a connection and read
-- from it. A method with a pointer receiver returns the message as it leaves it.
pub mod Header
pub mod Receive
pub mod SyncRequest
pub mod SyncResponse
pub mod DataRequest
pub mod DataResponse
pub mod Laws
pub mod RoundTrip
pub mod Faults
pub mod Torn
pub mod Foreign
