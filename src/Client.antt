-- ===== src/Client.antt =====
-- The desktop client, client/src-tauri/src: the wire format, the two data paths (the local proxy and
-- the packet interceptor), the packet builder and the filter builder; and above them the application: the
-- API client, the files, the commands, the game detector and the monitor, and their runs.
pub mod Protocol
pub mod Proxy
pub mod PacketBuilder
pub mod FilterBuilder
pub mod WinDivert
mod Examples
mod Tests
pub mod Api
pub mod GameDetector
pub mod Monitor
pub mod Runs
pub mod Store
pub mod App
