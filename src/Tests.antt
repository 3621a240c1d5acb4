-- ===== src/Tests.antt =====
-- Runs on concrete data, and the theorems applied to them.
mod Data
mod Work
mod Cluster
mod Models
mod Routes
mod Inference
mod Plans
mod Chats
mod Enrolment
mod Serving
