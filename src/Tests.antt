-- ===== src/Tests.antt =====
-- The theorems at concrete inputs, one module for each part of the program.
mod Collecting
mod Transport
mod Authorization
mod Values
mod Exchange
mod Architecture
mod Persistence
mod Envelopes
mod Records
mod Migration
