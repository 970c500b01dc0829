-- ===== src/Server.antt =====
-- app: the server of the panel, which answers the client's requests: its rows, its deployments and what
-- a restart makes of them.
pub mod Rows
pub mod Replies
pub mod Python
pub mod Deploys
pub mod Proxy
pub mod Domains
pub mod Uploads
pub mod Retention
