-- ===== src/Tests.antt =====
-- Runs of the code on concrete inputs, and an instance of every theorem that has hypotheses.
mod Tables
mod Maps
mod Runs
mod Matches
mod Codec
mod Trading
mod Market
mod Queues
mod Streams
