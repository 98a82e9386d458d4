-- ===== src/Examples.antt =====
-- The theorems at concrete inputs, and runs of the code.
mod Futures
mod Memory
mod Lists
mod Slist
mod Mutex
mod Condvar
mod Await
mod Timer
mod Clock
mod Channel
mod Bounded
mod Wakeups
mod Interrupt
