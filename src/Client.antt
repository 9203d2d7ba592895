-- ===== src/Client.antt =====
-- The client: src/client/api.cxx with the results of src/client/api.hxx, src/client/board.hxx, and
-- the game of src/client/ui.cxx.
pub mod Api
pub mod View
pub mod Game
pub mod Contract
pub mod Tiles
pub mod Mirror
pub mod Following
pub mod Moves
pub mod Playing
pub mod Reading
pub mod Answered
pub mod Told
pub mod Counted
pub mod Understood
pub mod Remote
pub mod Asking
pub mod Judged
pub mod Fulfilled
pub mod Main
pub mod Session
pub mod Whole
pub mod Clocked
pub mod Joined
pub mod Tests
