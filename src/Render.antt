-- ===== src/Render.antt =====
-- internal/render: the texts that are made of a declaration.
pub mod Nftables
