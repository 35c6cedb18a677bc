-- ===== src/Chain.antt =====
-- The edges of the parent chain: the coinbase transaction of p2pearl/chain/coinbase.py, the RPC client
-- of p2pearl/chain/node_rpc.py, and the proof checks of p2pearl/pow/verify.py.
pub mod Transaction
pub mod Rpc
pub mod Proofs
mod Tests
