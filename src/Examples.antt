-- ===== src/Examples.antt =====
-- The properties at concrete inputs.
mod Strings
mod Services
mod Variables
mod Paths
mod Tables
mod Lists
mod Pools
mod Names
mod Drivers
