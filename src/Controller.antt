-- ===== src/Controller.antt =====
-- internal/controller: the controllers of ConfigStore and RestorePolicy. Status.antt has what they
-- write, Retention.antt the sweep, Stores.antt and Policies.antt the two Reconcile methods.
pub mod Status
pub mod Retention
pub mod Stores
pub mod Policies
