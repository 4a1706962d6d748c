-- ===== src/Account.antt =====
-- market_server/account_service: the clients' accounts, kept up to date from the engines' reports, and
-- the answers to the gateways that ask for them.
pub mod Client
pub mod Buffer
pub mod Writer
pub mod Requests
pub mod Dispatcher
mod Tests
