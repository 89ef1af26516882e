-- ===== src/Tests.antt =====
-- Runs on small inputs, and the theorems of the development at concrete arguments.
mod Memory
mod Tasking
mod Devices
mod Lists
mod Kernel
mod Tables
mod Text
mod Firmware
mod Locks
mod Commands
mod Pictures
mod Logging
mod Startup
