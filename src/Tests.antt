-- ===== src/Tests.antt =====
-- Concrete stand-ins for the code that is not part of the repository, and runs of the theorems.
mod Instances
mod Message
mod Sockets
mod Torn
mod Tokens
mod Subscriber
mod Faults
mod Subscription
mod Topology
mod Cell
mod Store
mod Endpoint
mod Handlers
mod Simulator
mod WebSocket
mod Follow
mod Sink
mod Client
mod Server
mod UrlClient
mod Programs
mod Fanout
mod Followers
mod Overlap
