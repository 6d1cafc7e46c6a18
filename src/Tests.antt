-- ===== src/Tests.antt =====
-- Runs of the model at concrete inputs.
mod Toy
mod Gntp
mod Freedesktop
mod Others
mod Client
mod Icons
mod Bus
mod Desktop
