-- ===== src/Tests.antt =====
-- Tests: runs of the models of src on concrete inputs.
mod Routing
mod Serving
mod Sending
mod Receiving
mod Encoding
mod Frames
mod Replies
mod Timers
mod Loops
mod Queues
mod Logs
mod Lists
mod Pollers
mod Wheels
mod Coroutines
