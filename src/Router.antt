-- ===== src/Router.antt =====
-- src/dory/router_thread.cc: which broker a message goes to. The metadata and the route counters are
-- what routing reads and changes of the router thread; Die, which ends the process, is an outcome.
pub mod Choose
pub mod Reach
pub mod Reroute
pub mod Served
pub mod ByKey
