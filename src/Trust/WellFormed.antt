-- ===== src/Trust/WellFormed.antt =====
-- What a valid trust policy is, stated apart from the order in which src/trust.rs checks it, and
-- that `validate` accepts exactly those policies.
pub mod Fields
pub mod Policy
