-- ===== src/Contracts.antt =====
-- blockchain/hardhat.config.ts and blockchain/scripts: the settings of Hardhat and the scripts that
-- deploy and upgrade the contract.
pub mod Script
pub mod Deploy
pub mod Settings
