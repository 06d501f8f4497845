-- ===== src/Examples.antt =====
-- Runs of the model on concrete inputs, and the theorems at inputs that meet their hypotheses.
mod Calls
mod Frames
mod Memory
mod Requests
mod Rpc
mod Serving
mod Scheduling
mod Store
mod TaskTable
