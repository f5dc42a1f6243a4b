-- ===== src/Webhooks.antt =====
-- internal/pkg/webhooks: the remote methods of the web API.
pub mod Remote
mod Tests
