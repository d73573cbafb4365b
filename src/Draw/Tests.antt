-- ===== src/Draw/Tests.antt =====
-- Runs of the draw verifier on concrete inputs, with a small digest and the hex text in place of
-- the crates, and the examples of its theorems.
mod Toy
mod Sicbo
mod Zjh
mod Scratch
