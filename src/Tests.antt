-- ===== src/Tests.antt =====
-- Runs of the model on concrete inputs, and the theorems applied there.
mod Plain
mod Tree
mod Access
mod Ranges
mod Toy
mod Http
mod Socks
mod Association
mod Settings
mod Services
mod Adapters
mod Answers
mod Contents
mod Host
mod Reached
mod Runs
mod Threads
mod Orders
mod Writing
mod Arguments
