-- ===== src/Example.antt =====
-- jacquard-oatproxy/examples/simple_server
pub mod MemoryStore
