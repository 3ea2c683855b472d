-- ===== src/Tests.antt =====
-- Tests of the models, and the theorems applied to concrete inputs.
mod Phase
mod Planning
mod Numbers
mod Prompts
mod Summary
mod Load
mod Stream
mod Delivered
mod Open
mod Sweep
mod Runs
mod Lifecycles
