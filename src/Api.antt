-- ===== src/Api.antt =====
-- internal/apis/v1alpha1: the declaration, as it is once it is decoded.
pub mod Netip
pub mod Scalars
pub mod Link
pub mod Firewall
pub mod Serving
pub mod Document
