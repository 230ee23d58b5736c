-- ===== src/RouterOs/Api.antt =====
-- routeros/include/eztik/routeros/api.hpp and routeros/src/api.cpp, with the read state machine of
-- routeros/include/eztik/routeros/api_read_state_machine.hpp and its .cpp: one API connection.
-- Boost.Asio completes what `async_…` starts by a call of the `…_completed` operation. The functions
-- given to `send`, `login` and `open` are numbers; `keep` says which of the first answer true.
pub mod State
pub mod Sending
pub mod Reading
pub mod Steps
pub mod Portions
pub mod Words
pub mod LongWords
pub mod Sentences
pub mod Tags
pub mod Callbacks
pub mod Settled
pub mod Replies
pub mod Exchange
pub mod Login
pub mod Authenticating
pub mod Challenge
pub mod Early
pub mod Connection
