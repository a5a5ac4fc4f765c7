-- ===== src/Client.antt =====
-- httpxp/_client.py
pub mod Origin
pub mod Redirect
pub mod Exec
pub mod Send
pub mod Authenticated
pub mod Merging
pub mod Lifecycle
pub mod Calls
