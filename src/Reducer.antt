-- ===== src/Reducer.antt =====
-- The reducers: runtime/cilkred_map.c, runtime/reducer_impl.c.
pub mod Map
pub mod Ids
pub mod Hyper
pub mod Reuse
mod Tests
