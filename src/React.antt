-- ===== src/React.antt =====
-- The setting of the client's components: asynchronous handlers over a component's state, what a
-- component renders, and how handlers and user events interleave.
pub mod Program
pub mod View
pub mod Run
pub mod World
