-- ===== src/Tests.antt =====
-- Runs of the models on small inputs, and the theorems applied to concrete ones.
mod Serving
mod Ranking
mod Loops
mod Coding
mod Chat
mod Timers
mod Logging
mod Network
mod Conversion
