-- ===== src/Examples.antt =====
-- The theorems at small concrete inputs: a charger with one session, and the messages of one EV.
mod Data
mod Packets
mod Polls
mod Der
mod Charging
mod Runs
mod Machine
mod CableCheck
mod Authorization
mod PowerDelivery
mod SessionSetup
mod Services
mod Protocols
mod Timeouts
mod Exchanges
mod Selections
