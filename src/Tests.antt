-- ===== src/Tests.antt =====
-- Each property applied to concrete devices, memory maps, schedulers and programs.
mod Devices
mod Entries
mod Regions
mod Machines
mod Histories
mod Pages
mod Programs
mod Timers
mod Loading
mod Simulation
mod Concurrent
mod Rounds
mod NoCpu
mod Endings
mod WholeRun
mod Launches
mod Segments
mod Tables
