-- ===== src/Tests.antt =====
-- Concrete worlds, and the development's theorems applied to them.
mod Worlds
mod Creation
mod Updates
mod Datasets
mod Learning
mod Analysis
mod Bootstrap
mod Transactions
mod Attachments
mod Attaching
mod Views
