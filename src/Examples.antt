-- ===== src/Examples.antt =====
-- Concrete runs of the modelled code of ext/, which apply the theorems.
mod State
mod Network
mod Easy
mod Multi
mod Loop
mod Sockets
mod Fields
mod Request
mod Setup
mod Setopt
mod Attributes
