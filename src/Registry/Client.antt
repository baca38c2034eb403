-- ===== src/Registry/Client.antt =====
-- internal/registry/client.go and auth_transport.go: the registry client. What the network and Go's
-- library do is the record `Net`; what a server answers may depend on all requests that it got. A
-- request that follows a redirect is one more request with the same headers. The client keeps no
-- lock while it waits, and one call runs at a time here.
pub mod Base
pub mod Challenges
pub mod Requests
pub mod Tokens
pub mod Calls
pub mod Confined
pub mod Pages
