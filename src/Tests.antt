-- ===== src/Tests.antt =====
-- Tests and concrete instances of the theorems.
mod Bcon
mod Bson
mod Bundle
mod CliArguments
mod Idl
mod Idlc
mod Json
mod Nio
mod Proxy
mod SharedPtr
mod Sockets
mod Logger
mod Start
mod Programs
mod Container
