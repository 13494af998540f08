-- ===== src/Examples.antt =====
-- Runs of the models at concrete inputs: a host with one buyer's machine, its leases, and texts.
mod Host
mod Leases
mod Texts
mod Deletes
mod Periods
mod Holds
mod Boots
mod Openings
mod Scrubs
mod Gpus
mod Starts
mod Restarts
mod Machines
mod Rereads
