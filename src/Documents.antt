-- ===== src/Documents.antt =====
-- apps/documents (and the models of apps/tenants): rows, request bodies, and the HTTP views.
pub mod Models
pub mod Serializers
pub mod Views
