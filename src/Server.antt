-- ===== src/Server.antt =====
-- internal/server/server.go, with enrichNode of cluster.go and handleAdminIdentity of enroll.go: the
-- handlers that change the cluster's state, each run to its end. A handler takes the time, what the
-- request presents, and the server; it answers the server after it and the response. A body is what
-- it decodes to, or missing where it cannot be read or decoded.
pub mod Certificates
pub mod Agents
pub mod Work
pub mod Registering
pub mod Prompted
pub mod Requests
pub mod Parts
pub mod Invariant
pub mod Handout
pub mod Harmless
pub mod Refusals
pub mod Reports
pub mod Rejoining
pub mod Enrolling
pub mod Issuing
pub mod Superseded
pub mod Views
pub mod Reading
pub mod Prompts
pub mod Queueing
pub mod Routed
pub mod Submitting
pub mod Chat
pub mod Answers
pub mod Serving
pub mod Planning
