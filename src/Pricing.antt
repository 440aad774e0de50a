-- ===== src/Pricing.antt =====
-- src/glip/pricing: price sources, snapshots, quantity mappings, estimates and the cost ledger.
pub mod Sources
pub mod Data
pub mod Gate
pub mod Snapshots
pub mod Mappings
pub mod Estimates
pub mod Fees
pub mod Priced
pub mod Service
pub mod Authority
pub mod Sound
pub mod Rounding
pub mod FeeLaws
pub mod Costs
pub mod Quoted
pub mod Isolation
mod Examples
