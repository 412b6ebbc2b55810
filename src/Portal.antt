-- ===== src/Portal.antt =====
-- The portal of the contest (portal/): the queue of benchmark jobs, the results, the proxies, the
-- notices and the handlers in front of them.
pub mod Schema
pub mod Queue
pub mod Contest
pub mod Unguarded
pub mod Proxies
pub mod Messages
pub mod Results
pub mod Replies
pub mod Sessions
pub mod Pages
pub mod Jobs
pub mod Debug
pub mod Forms
pub mod Mux
pub mod Import
mod Tests
