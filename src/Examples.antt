-- ===== src/Examples.antt =====
-- Tests of the definitions and instances of the theorems, one module for each part.
mod Queue
mod Promises
mod Reading
mod Lists
mod Ranges
mod Batches
mod Sending
