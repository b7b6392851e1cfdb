-- ===== src/Modes.antt =====
-- The modes of channels, src/ChanMode.c: the tables of the handlers of modes, which
-- src/ChanBanMode.c and src/Modes.c have as well, the modes that are set on a channel with their
-- values, and the line of the protocol that changes them.
pub mod Tables
pub mod Letters
pub mod Registry
pub mod Refinement
pub mod Values
pub mod Line
pub mod Safety
pub mod Banning
pub mod Keys
pub mod Listed
pub mod Single
mod Examples
