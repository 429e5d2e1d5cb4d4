-- ===== src/Tests.antt =====
-- Examples: each theorem at a concrete input at which its hypotheses hold.
mod Fixtures
mod Programs
mod CoInstall
mod Detect
mod Enum
mod EventLog
mod FossilTest
mod Install
mod Ioctl
mod Isr
mod Linux
mod Pdo
mod Power
mod Read
mod Serial
mod Stress
mod System
mod Write
