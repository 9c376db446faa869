-- ===== src/Ctx.antt =====
-- Contexts: src/core/ctx.c.
pub mod Read
pub mod Requests
pub mod Maps
pub mod Life
