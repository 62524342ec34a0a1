-- ===== src/Webhook.antt =====
-- internal/webhook: the plugins that turn a provider's requests into events. The plugin interface
-- and the registry stand with the handler that calls them, in Transport.Http.
pub mod Json
pub mod Github
