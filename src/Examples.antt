-- ===== src/Examples.antt =====
-- Tests of the definitions, and the theorems at concrete inputs.
mod Values
mod Keys
mod Events
mod Databases
mod Templates
mod Streams
mod Trees
mod Indexes
mod Views
mod Generations
mod Budgets
mod Subscriptions
