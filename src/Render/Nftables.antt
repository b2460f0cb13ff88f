-- ===== src/Render/Nftables.antt =====
-- internal/render/nftables: the one table that regied owns.
pub mod Ruleset
pub mod Matches
pub mod Names
pub mod Sets
pub mod Policies
pub mod Marks
pub mod Translation
pub mod Filter
pub mod Accepts
pub mod Accepted
pub mod Valid
pub mod Lengths
mod Examples
