-- ===== src/Tests.antt =====
-- Fixtures, runs of the code on concrete inputs, and each result at an input.
mod Fixtures
mod Lists
mod Network
mod Firmware
mod Generator
mod Node
mod Printing
mod Reports
mod Boot
mod Filters
